-- ===== src/Supervisor/Registry.antt =====
-- What the registry and the live threads say of each other, and that each call keeps it.
use holypipe.Prelude.{
  refl, inr, ◌∙◌, ap, inl, str_eq_refl, Bool-cases, Option, none, ◌≤◌, ℕ, suc, ◌<◌, ◌≡◌, String,
  true, false, not, ◌&&◌, some, List, [], ◌∷◌, arith, eq_iff, ◌==◌, if◌then◌else◌, str_eq,
}
use holypipe.Dict
use holypipe.Dict.{Dict, get-put, get-pop}
use holypipe.Supervisor.{
  alive_worker, stop_worker, is_running, Supervisor, is_alive, start, without, exit, stop,
}

-- The live threads of a connection.
unfoldable pub count : String → List (ℕ × String) → ℕ
count cid [] = 0
count cid ((t, other) ∷ live) = if str_eq other cid then suc (count cid live) else count cid live

-- Thread numbers are given once, and every live thread is the one that the registry names.
unfoldable pub Registered : Dict ℕ → ℕ → List (ℕ × String) → Type 0
Registered workers fresh [] = Unit
Registered workers fresh ((t, cid) ∷ live) =
    (Dict.get cid workers ≡ some t)
    × (t < fresh)
    × (is_alive t live ≡ false)
    × Registered workers fresh live

-- Numbers in the registry are below the next, and no two connections share one.
pub record IsRegistry (workers : Dict ℕ) (fresh : ℕ) : Type 0 where
  pub below : (cid : String) (t : ℕ) → Dict.get cid workers ≡ some t → t < fresh
  pub injective :
      (c d : String) (t : ℕ) → Dict.get c workers ≡ some t → Dict.get d workers ≡ some t → c ≡ d

pub record IsValid (s : Supervisor) : Type 0 where
  pub registered : Registered s.workers s.fresh s.live
  pub registry : IsRegistry s.workers s.fresh

pub is_alive-without :
    (t u : ℕ) (live : List (ℕ × String))
    → is_alive u (without t live) ≡ (not (t == u) && is_alive u live)
is_alive-without t u [] = ground arith
is_alive-without t u ((w, cid) ∷ live) = ground (arith, is_alive-without t u live)

Registered-without :
    (workers : Dict ℕ) (fresh t : ℕ) (live : List (ℕ × String))
    → Registered workers fresh live
    → Registered workers fresh (without t live)
unfolding Registered
Registered-without workers fresh t [] r = tt
Registered-without workers fresh t ((u, cid) ∷ live) r =
    ground (arith, Registered-without workers fresh t live r.3, is_alive-without t u live)

-- Removing a registration whose thread is not live.
Registered-pop :
    (workers : Dict ℕ) (fresh : ℕ) (cid : String) (t : ℕ) (live : List (ℕ × String))
    → Dict.get cid workers ≡ some t
    → is_alive t live ≡ false
    → Registered workers fresh live
    → Registered (Dict.pop cid workers) fresh live
unfolding Registered
Registered-pop workers fresh cid t [] e dead r = tt
Registered-pop workers fresh cid t ((u, other) ∷ live) e dead r = ground (
  arith,
  Registered-pop workers fresh cid t live e,
  r.3,
  get-pop cid other workers,
  eq_iff cid other,
)

Registered-pop-none :
    (workers : Dict ℕ) (fresh : ℕ) (cid : String) (live : List (ℕ × String))
    → Dict.get cid workers ≡ none
    → Registered workers fresh live
    → Registered (Dict.pop cid workers) fresh live
unfolding Registered
Registered-pop-none workers fresh cid [] e r = tt
Registered-pop-none workers fresh cid ((u, other) ∷ live) e r = ground (
  arith,
  Registered-pop-none workers fresh cid live e,
  r.3,
  get-pop cid other workers,
  eq_iff cid other,
)

-- A registration under the fresh number, of a connection with no live thread.
Registered-put :
    (workers : Dict ℕ) (fresh : ℕ) (cid : String) (old : Option ℕ) (live : List (ℕ × String))
    → Dict.get cid workers ≡ old
    → alive_worker old live ≡ false
    → Registered workers fresh live
    → Registered (Dict.put cid fresh workers) (suc fresh) live
unfolding Registered
Registered-put workers fresh cid old [] e dead r = tt
Registered-put workers fresh cid none ((u, other) ∷ live) e dead r = ground (
  arith,
  Registered-put workers fresh cid none live e,
  r.3,
  get-put cid other fresh workers,
  eq_iff cid other,
)
Registered-put workers fresh cid (some t) ((u, other) ∷ live) e dead r = ground (
  arith,
  Registered-put workers fresh cid (some t) live e,
  r.3,
  get-put cid other fresh workers,
  eq_iff cid other,
)

fresh_dead :
    (workers : Dict ℕ) (fresh u : ℕ) (live : List (ℕ × String))
    → fresh ≤ u
    → Registered workers fresh live
    → is_alive u live ≡ false
unfolding Registered
fresh_dead workers fresh u [] h r = refl
fresh_dead workers fresh u ((t, cid) ∷ live) h r =
    ground (arith, fresh_dead workers fresh u live h r.3)

IsRegistry-put :
    (workers : Dict ℕ) (fresh : ℕ) (cid : String)
    → IsRegistry workers fresh
    → IsRegistry (Dict.put cid fresh workers) (suc fresh)
IsRegistry-put workers fresh cid v = record {
  below = λ c t e. ground (arith, get-put cid c fresh workers, v.below c t);
  injective = λ c d t e f. ground (
    arith,
    get-put cid c fresh workers,
    get-put cid d fresh workers,
    eq_iff cid c,
    eq_iff cid d,
    v.below c t,
    v.below d t,
    v.injective c d t,
  );
}

IsRegistry-pop :
    (workers : Dict ℕ) (fresh : ℕ) (cid : String)
    → IsRegistry workers fresh
    → IsRegistry (Dict.pop cid workers) fresh
IsRegistry-pop workers fresh cid v = record {
  below = λ c t e. ground (arith, get-pop cid c workers, v.below c t);
  injective =
      λ c d t e f. ground (arith, get-pop cid c workers, get-pop cid d workers, v.injective c d t);
}

pub start-IsValid : (s : Supervisor) (cid : String) → IsValid s → IsValid (start cid s)
unfolding start
start-IsValid s cid v = elim (Bool-cases (alive_worker (Dict.get cid s.workers) s.live)) [
  | inl on ↦ rw (on, start) v
  | inr off ↦
      rw (off, start)
        (record {
          registered =
              unfold Registered in
              (
                get-put cid cid s.fresh s.workers ∙ rw str_eq_refl,
                omega arith,
                fresh_dead s.workers s.fresh s.fresh s.live (omega arith) v.registered,
                Registered-put s.workers s.fresh cid _ s.live refl off v.registered,
              );
          registry = IsRegistry-put s.workers s.fresh cid v.registry;
        })
]

-- Both ways to stop at once: nothing registered, and a thread that is joined.
stop_worker-IsValid :
    (s : Supervisor) (cid : String) (o : Option ℕ)
    → Dict.get cid s.workers ≡ o
    → IsValid s
    → IsValid (stop_worker o true (record s { workers = Dict.pop cid s.workers }))
stop_worker-IsValid s cid none e v = record {
  registered = Registered-pop-none s.workers s.fresh cid s.live e v.registered;
  registry = IsRegistry-pop s.workers s.fresh cid v.registry;
}
stop_worker-IsValid s cid (some t) e v = record {
  registered =
      Registered-pop s.workers s.fresh cid t (without t s.live) e
        (ground (arith, is_alive-without t t s.live))
        (Registered-without s.workers s.fresh t s.live v.registered);
  registry = IsRegistry-pop s.workers s.fresh cid v.registry;
}

pub stop-IsValid : (s : Supervisor) (cid : String) → IsValid s → IsValid (stop cid true s)
unfolding stop
stop-IsValid s cid v = stop_worker-IsValid s cid (Dict.get cid s.workers) refl v

pub exit-IsValid : (s : Supervisor) (t : ℕ) → IsValid s → IsValid (exit t s)
unfolding exit
exit-IsValid s t v = record {
  registered = Registered-without s.workers s.fresh t s.live v.registered;
  registry = v.registry;
}

pub count-Registered :
    (workers : Dict ℕ) (fresh : ℕ) (cid : String) (o : Option ℕ) (live : List (ℕ × String))
    → IsRegistry workers fresh
    → Dict.get cid workers ≡ o
    → Registered workers fresh live
    → count cid live ≡ (if alive_worker o live then 1 else 0)
unfolding Registered count
count-Registered workers fresh cid none [] v e r = refl
count-Registered workers fresh cid (some t) [] v e r = refl
count-Registered workers fresh cid none ((u, other) ∷ live) v e r =
    ground (arith, count-Registered workers fresh cid none live v e, r.3, eq_iff other cid)
count-Registered workers fresh cid (some t) ((u, other) ∷ live) v e r = ground (
  arith,
  count-Registered workers fresh cid (some t) live v e,
  r.3,
  eq_iff other cid,
  v.injective other cid t,
)

-- A stop that does not join forgets the thread, and a start after it adds another.
start-stop :
    (s : Supervisor) (cid : String) (o : Option ℕ)
    → Dict.get cid s.workers ≡ o
    → alive_worker o s.live ≡ true
    → (start cid (stop cid false s)).live ≡ (s.fresh, cid) ∷ s.live
unfolding start stop
start-stop s cid none e on = cc
start-stop s cid (some t) e on = rw e (simp (get-pop, str_eq_refl))

-- From a valid registry in which the connection is running: after a stop whose join times out,
-- and a start, as in a resync, two live threads stream the connection.
count-start-stop :
    (s : Supervisor) (cid : String)
    → IsValid s
    → is_running cid s ≡ true
    → count cid (start cid (stop cid false s)).live ≡ 2
unfolding is_running count
count-start-stop s cid v on =
    let one = count-Registered s.workers s.fresh cid _ s.live v.registry refl v.registered in
    rw (start-stop s cid _ refl on, count, str_eq_refl) (ap suc (one ∙ rw on))
