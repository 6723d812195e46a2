-- ===== src/Scenarios/Pools.antt =====
-- A manager of at most two thread pools, run through the methods of src/leasepool/manager.py.
use mathlib.Core.Path.{subst}
use leasepool.Base.{◌↔◌, ◌+◌, ◌-◌, ◌/◌, ◌≡◌, refl, ◌≤◌, true, false, ◌⊎◌, none, some, [], ◌∷◌, max}
use leasepool.Base.Exec.{ok, raised, Exn}
use leasepool.Backends.{Executor, thread, build_executor, thread_pool}
use leasepool.Kwargs.{get, set, set_default, name}
use leasepool.ProcessLogging.{number}
use leasepool.Manager.Config.{Runtime, Config, accepted}
use leasepool.Manager.State.{
  running, finished, set_event, State, LeaseRecord, initial, current_count, monotonic, wake_checker,
}
use leasepool.Manager.Table.{find, remove, insert, update, expired_ids}
use leasepool.Manager.Sizing.{desired_executor_count}
use leasepool.Manager.Pool.{create_executor, take_or_create_available, ensure_minimum}
use leasepool.Manager.Leases.{release, submit_for_lease, revoke_all, revoke_expired_leases}
use leasepool.Manager.Acquire.{Request, attempt}
use leasepool.Manager.LogBridge.{start_process_logging_if_needed}
use leasepool.Manager.Lifecycle.{start, stop_finish}
use leasepool.Manager.Steps.{Reach, made, next, starts, attempts}
use leasepool.Manager.Ledger.Count.{count, count_leased, census, count_ready}
use leasepool.Manager.Ledger.Reach.{current_count-le, leased_alone, placed_once}
use leasepool.Manager.Releasing.{release_idle_lem, Fate}
use leasepool.Manager.Stopping
use leasepool.Manager.Submitting
use leasepool.Manager.Growth.{ensure_minimum-reaches}
use leasepool.Manager.Ledger.Leases.{dropped}

-- A clock that moves one tick with each read.
abbrev pub ticking : Runtime
ticking = record {
  clock = λ k. k;
  uuid = λ k. k;
  submit = λ k. accepted k none;
  construct = λ seq. none;
  ceil_div = λ a b. ok ((a + b - 1) / b);
  has_interpreter_pool = false;
  has_forkserver = true;
  has_spawn = true;
  make_queue = none;
  start_listener = none;
  stop_listener = none;
}

abbrev pub pool : Config
pool = record {
  runtime = ticking;
  backend = thread;
  process_logging = record {
    enabled = false;
    level = number 20;
    target_logger = none;
    clear_child_handlers = true;
  };
  process_log_level = 20;
  max_pools = 2;
  min_pools = 1;
  units_per_pool = 10;
  size_provider = none;
  check_interval = 120;
  default_lease_seconds = 300;
  lease_grace_seconds = 15;
  workers_per_pool = 4;
  name_prefix = "leasepool";
  executor_kwargs = [];
  logger = 0;
}

abbrev pub request : Request
request = record { lease_seconds = none; owner = none; wait = true; timeout = none }

abbrev pub first_executor : Executor
first_executor = record {
  seq = 1;
  cls = thread_pool;
  max_workers = 4;
  kwargs = ("thread_name_prefix", name "leasepool" 1) ∷ [];
}

abbrev pub first_lease : LeaseRecord
first_lease = record {
  lease_id = 1;
  ref = 1;
  executor = first_executor;
  owner = none;
  leased_at = 2;
  lease_seconds = 300;
  grace_seconds = 15;
  pending_futures = [];
  release_requested = false;
  broken = false;
}

-- Started on loop 7, with one lease taken.
abbrev pub leased_pool : State
leased_pool = record initial {
  leased = first_lease ∷ [];
  availability_event = some 0;
  scale_change_event = some 1;
  loop = some 7;
  checker_task = some running;
  started = true;
  executor_seq = 1;
  reads = 3;
  events = 2;
  ready = set_event 1 ∷ [];
  built = first_executor ∷ [];
}

leased_pool_lem : (attempt pool request 300 0 (start pool (some 7) initial).1).1 ≡ leased_pool
unfolding start attempt ensure_minimum desired_executor_count create_executor build_executor
    revoke_expired_leases start_process_logging_if_needed monotonic revoke_all expired_ids
    take_or_create_available wake_checker set_default get set insert
leased_pool_lem = refl

pub leased_pool-Reach : Reach pool leased_pool
leased_pool-Reach =
    subst (Reach pool) leased_pool_lem (next (next made (starts (some 7))) (attempts request 300 0))

pub found_first : find 1 leased_pool.leased ≡ some first_lease
unfolding find
found_first = refl

current_count-le_example : current_count leased_pool ≤ 2
current_count-le_example = current_count-le pool leased_pool-Reach

leased_alone_example :
    (count_leased 1 (remove 1 leased_pool.leased) ≡ 0)
    × (count 1 leased_pool.available ≡ 0)
    × (count 1 leased_pool.shut ≡ 0)
    × (count 1 leased_pool.closing ≡ 0)
    × (count_ready 1 leased_pool.ready ≡ 0)
leased_alone_example = leased_alone pool 1 leased_pool-Reach found_first

placed_once_example :
    (census 1 leased_pool ≤ count 1 leased_pool.built) × (count 1 leased_pool.built ≤ 1)
placed_once_example = placed_once pool 1 leased_pool-Reach

release_idle_lem_example :
    ((release pool 1 leased_pool).1.leased ≡ remove 1 leased_pool.leased)
    × Fate pool first_lease leased_pool (dropped 1 leased_pool) (release pool 1 leased_pool)
release_idle_lem_example = release_idle_lem pool 1 leased_pool found_first refl

wants_one : (desired_executor_count pool initial).0 ≡ ok 1
unfolding desired_executor_count
wants_one = refl

makes_one : (ensure_minimum pool initial).0 ≡ ok tt
unfolding ensure_minimum desired_executor_count create_executor build_executor set_default get set
makes_one = refl

ensure_minimum-reaches_example :
    current_count (ensure_minimum pool initial).1 ≡ max (current_count initial) 1
ensure_minimum-reaches_example = ensure_minimum-reaches pool initial wants_one makes_one

-- After the first part of stop.
abbrev stopping_pool : State
stopping_pool = record leased_pool { stopping = true; checker_task = some finished }

stop_finish_lem_example :
    let (r, t) = stop_finish pool stopping_pool in
    (t.available ≡ [])
    × (t.leased ≡ [])
    × (t.started ≡ false)
    × (t.shut ≡ first_executor ∷ [])
    × (((r ≡ ok tt) × (t.loop ≡ none) × (t.stopping ≡ false))
        ⊎ ((x : Exn) × (r ≡ raised x) × (t.loop ≡ some 7) × (t.stopping ≡ true)))
stop_finish_lem_example = Stopping.stop_finish_lem pool stopping_pool

-- The lease waits for future 4.
abbrev pub submitted_pool : State
submitted_pool = record leased_pool {
  leased = record first_lease { pending_futures = 4 ∷ [] } ∷ [];
  reads = 5;
}

submit_for_lease_iff_example :
    (submit_for_lease pool 1 leased_pool ≡ (ok 4, submitted_pool))
    ↔ ((r : LeaseRecord) × Submitting.Submitted pool 1 4 r leased_pool submitted_pool)
submit_for_lease_iff_example = Submitting.submit_for_lease_iff pool 1 4 leased_pool submitted_pool

pub submit_for_lease_test : submit_for_lease pool 1 leased_pool ≡ (ok 4, submitted_pool)
unfolding submit_for_lease monotonic find update
submit_for_lease_test = refl
