-- ===== src/Supervisor.antt =====
-- CdcSupervisor of engine/cdc.py: which thread streams which connection. A thread is a number
-- and its connection; `live` holds the threads that still run, `workers` the registry.
pub mod Registry
pub mod Workers
mod Tests
use holypipe.Prelude.{
  ℕ, suc, ◌+◌, String, Bool, true, false, not, ◌&&◌, Option, none, some, List, [], ◌∷◌, ◌==◌, keep,
  any, if◌then◌else◌,
}
use holypipe.Dict
use holypipe.Dict.{Dict}

pub record Supervisor : Type 0 where
  pub workers : Dict ℕ
  pub live : List (ℕ × String)
  pub fresh : ℕ

abbrev pub init : Supervisor
init = record { workers = []; live = []; fresh = 0 }

abbrev pub is_alive : ℕ → List (ℕ × String) → Bool
is_alive t = any (λ w. w.0 == t)

abbrev pub alive_worker : Option ℕ → List (ℕ × String) → Bool
alive_worker none live = false
alive_worker (some t) live = is_alive t live

unfoldable pub is_running : String → Supervisor → Bool
is_running cid s = alive_worker (Dict.get cid s.workers) s.live

unfoldable pub start : String → Supervisor → Supervisor
start cid s = if alive_worker (Dict.get cid s.workers) s.live then s else record {
  workers = Dict.put cid s.fresh s.workers;
  live = (s.fresh, cid) ∷ s.live;
  fresh = suc s.fresh;
}

-- A thread ends: its `run` returns.
abbrev pub without : ℕ → List (ℕ × String) → List (ℕ × String)
without t = keep (λ w. not (w.0 == t))

pub exit : ℕ → Supervisor → Supervisor
exit t s = record s { live = without t s.live }

abbrev stop_worker : Option ℕ → Bool → Supervisor → Supervisor
stop_worker none joined s = s
stop_worker (some t) joined s = if joined then record s { live = without t s.live } else s

-- `joined` says whether the thread ends within `join(timeout)`. The join is outside the lock: Workers
-- takes the two parts of a stop apart, where other calls come between them.
unfoldable pub stop : String → Bool → Supervisor → Supervisor
stop cid joined s =
    stop_worker (Dict.get cid s.workers) joined (record s { workers = Dict.pop cid s.workers })

-- `[cid for cid, w in self._workers.items() if w.is_alive()]`
running : Dict ℕ → List (ℕ × String) → List String
running [] live = []
running ((cid, t) ∷ workers) live =
    let rest = running workers live in if is_alive t live then cid ∷ rest else rest

unfoldable pub running_ids : Supervisor → List String
unfolding running
running_ids s = running s.workers s.live

-- `stop_all`: the registry is cleared, then each thread is stopped and joined.
end_all : Dict ℕ → List (ℕ × String) → List (ℕ × String)
end_all [] live = live
end_all ((cid, t) ∷ workers) live = end_all workers (without t live)

pub stop_all : Bool → Supervisor → Supervisor
unfolding end_all
stop_all joined s = record s {
  workers = [];
  live = if joined then end_all s.workers s.live else s.live;
}
