-- ===== src/Postgres/Atomic.antt =====
-- The transactions of the destination.
use mathlib.Core.List.{reverse_aux, reverse}
use holypipe.Postgres.Statements.{transact, commit, end_with, Stmt, Handle, Respond, perform_all}
use holypipe.Prelude.{◌≡◌, refl, inl, inr, ◌⊎◌, Bool, true, false, List, [], ◌∷◌, ◌++◌, Bool-cases}

-- The statements take effect together, or none does and the call raises. A call whose commit raised
-- may have taken effect too. None is left waiting.
abbrev pub IsAtomic : Handle → List Stmt → Handle × Bool → Type 0
IsAtomic s stmts (t, passed) =
    (t.pending ≡ [])
    × (((passed ≡ false) × (t.committed ≡ s.committed))
        ⊎ (t.committed ≡ reverse stmts ++ s.committed))

-- What the body of `with conn` leaves.
abbrev IsPerformed : Handle → List Stmt → Handle × Bool → Type 0
IsPerformed s stmts (t, passed) =
    (t.committed ≡ s.committed)
    × ((passed ≡ false) ⊎ ((passed ≡ true) × (t.pending ≡ reverse_aux stmts s.pending)))

perform_all-IsPerformed :
    (respond : Respond) (stmts : List Stmt) (s : Handle)
    → IsPerformed s stmts (perform_all respond stmts s)
unfolding perform_all
perform_all-IsPerformed respond [] s = (refl, inr (refl, refl))
perform_all-IsPerformed respond (stmt ∷ stmts) s = elim (Bool-cases (respond.answers s stmt)) [
  | inr raised ↦ rw raised (refl, inl refl)
  | inl done ↦
      let begun : Handle = record s { pending = stmt ∷ s.pending } in
      rw done (perform_all-IsPerformed respond stmts begun)
]

end_with-IsAtomic :
    (respond : Respond) (s : Handle) (stmts : List Stmt) (r : Handle × Bool)
    → s.pending ≡ []
    → IsPerformed s stmts r
    → IsAtomic s stmts (end_with respond r)
end_with-IsAtomic respond s stmts (t, false) clear (same, rest) = (refl, inl (refl, same))
end_with-IsAtomic respond s stmts (t, true) clear (same, inl raised) = cc
end_with-IsAtomic respond s stmts (t, true) clear (same, inr (on, all_of)) =
    elim (Bool-cases (respond.answers t commit)) [
      | inl done ↦ rw done (refl, inr (rw (all_of, clear, same) refl))
      | inr raised ↦ elim (Bool-cases (respond.keeps t)) [
        | inl kept ↦ rw (raised, kept) (refl, inr (rw (all_of, clear, same) refl))
        | inr lost ↦ rw (raised, lost) (refl, inl (refl, same))
      ]
    ]

pub transact-IsAtomic :
    (respond : Respond) (stmts : List Stmt) (s : Handle)
    → s.pending ≡ []
    → IsAtomic s stmts (transact respond stmts s)
unfolding transact
transact-IsAtomic respond stmts s clear =
    end_with-IsAtomic respond s stmts (perform_all respond stmts s) clear
      (perform_all-IsPerformed respond stmts s)
