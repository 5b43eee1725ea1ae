-- ===== src/Apaf/State.antt =====
-- `apaf_update_state`: when the controller is asked, and what it is told.
use approximation_computing.Common.{
  ◌%◌, ◌≡◌, ◌≢◌, ◌⊎◌, inl, inr, refl, sym, ap, arith, ◌==◌, ◌==ℤ◌, ==_iff, ==ℤ_iff, Bool-cases,
}
use approximation_computing.Task.{CfsRq}
use approximation_computing.Fairness.{fairness_jain_index, fairness_apaf_next_state}
use approximation_computing.Apaf.{apaf_update_state}

-- Every fourth tick the fairness index is stored and the controller moves by it, whether or not the
-- state changes; at the ticks between, nothing happens.
pub apaf_update_state-cases :
    (rq : CfsRq)
    → ((rq.tick % 4 ≢ 0) × (apaf_update_state rq ≡ rq))
      ⊎ ((rq.tick % 4 ≡ 0)
          × (apaf_update_state rq ≡ record rq {
            jain_index = fairness_jain_index rq;
            apaf_state = fairness_apaf_next_state rq.apaf_state (fairness_jain_index rq);
          }))
unfolding apaf_update_state
apaf_update_state-cases rq =
    let next = fairness_apaf_next_state rq.apaf_state (fairness_jain_index rq) in
    elim (Bool-cases (rq.tick % 4 == 0)) [
      | inr not_due ↦ inl (ground arith, rw (apaf_update_state, not_due) refl)
      | inl due ↦ elim (Bool-cases (next ==ℤ rq.apaf_state)) [
        | inl stays ↦
            let same : next ≡ rq.apaf_state = (==ℤ_iff next rq.apaf_state).0 stays in
            inr (
              (==_iff (rq.tick % 4) 0).0 due,
              rw (apaf_update_state, due, stays)
                  (ap (λ q. record rq { jain_index = fairness_jain_index rq; apaf_state = q })
                    (sym same)),
            )
        | inr moves ↦ inr ((==_iff (rq.tick % 4) 0).0 due, rw (apaf_update_state, due, moves) refl)
      ]
    ]
