-- ===== src/Engines/Omni/Polling.antt =====
-- How the polling of api/engines/vllm_omni/client.py ends.
use cosmos3_nano_web_ui.Common.{
  ℕ, ◌≤◌, ◌<◌, Bool, true, false, ◌==◌, ==_iff, Option, none, some, String, str_cases, ◌≡◌, refl,
  sym, ◌∙◌, subst, ◌⊎◌, inl, inr, Bool-cases, Option-cases,
}
use cosmos3_nano_web_ui.Common.Float
use cosmos3_nano_web_ui.Common.Float.{Float}
use cosmos3_nano_web_ui.Engines.Omni.{
  Reply, Round, Ended, done, broken, timeout, generation_failed, raised, Step, ends, goes_on,
  poll_round, parse_status, state_of, by_state, completed, failed, pending, clamp,
}

-- The round lets the loop go on: the deadline has not passed and the server answers that the job is
-- neither completed nor failed.
abbrev pub Pending : Round → Type 0
Pending r = (f : Option Float) × (poll_round r ≡ goes_on f)

-- The first round that ends the loop is round `m`, and it ends it so.
abbrev pub EndsAt : (ℕ → Round) → ℕ → ℕ → Ended → Bool → Type 0
EndsAt rounds i m e d =
    (i ≤ m) × ((j : ℕ) → i ≤ j → j < m → Pending (rounds j)) × (poll_round (rounds m) ≡ ends e d)

late_lem : (r : Round) → r.late ≡ true → poll_round r ≡ ends (broken timeout) true
unfolding poll_round
late_lem r h = rw h refl

-- What a round that ends the loop met: the deadline, with a delete; or in time and with no delete,
-- an answer of 200 with a completed job, or a failure.
abbrev pub Verdict : Round → Ended → Bool → Type 0
Verdict r (done reply) d =
    (d ≡ false)
    × (r.late ≡ false)
    × (r.reply ≡ some reply)
    × (reply.code ≡ 200)
    × (reply.status ≡ "completed")
Verdict r (broken timeout) d = (d ≡ true) × (r.late ≡ true)
Verdict r (broken generation_failed) d = (d ≡ false) × (r.late ≡ false)
Verdict r (broken raised) d = (d ≡ false) × (r.late ≡ false) × (r.reply ≡ none)
Verdict r _ d = ⊥

state_cases :
    (s : String)
    → ((state_of s ≡ completed) × (s ≡ "completed"))
      ⊎ (state_of s ≡ failed)
      ⊎ (state_of s ≡ pending)
state_cases s = elim (str_cases s "completed") [
  | inl (q, y) ↦ inl (rw y refl, q)
  | inr (q, y) ↦ elim (str_cases s "failed") [
    | inl (p, z) ↦ inr (inl (rw (y, z) refl))
    | inr (p, z) ↦ inr (inr (rw (y, z) refl))
  ]
]

on_time :
    (r : Round) (reply : Reply)
    → r.late ≡ false
    → r.reply ≡ some reply
    → ((reply.code == 200) ≡ false) × (poll_round r ≡ ends (broken generation_failed) false)
      ⊎ ((reply.code == 200) ≡ true)
        × (poll_round r ≡ by_state reply (state_of reply.status) (clamp reply.progress))
unfolding poll_round parse_status
on_time r reply t e = elim (Bool-cases (reply.code == 200)) [
  | inl c ↦ inr (c, rw (t, e, c) refl)
  | inr c ↦ inl (c, rw (t, e, c) refl)
]

no_reply : (r : Round) → r.late ≡ false → r.reply ≡ none → poll_round r ≡ ends (broken raised) false
unfolding poll_round
no_reply r t n = rw (t, n) refl

pub Verdict_lem : (r : Round) (e : Ended) (d : Bool) → poll_round r ≡ ends e d → Verdict r e d
Verdict_lem r e d h = elim (Bool-cases r.late) [
  | inl t ↦ met (broken timeout) true (late_lem r t) (refl, t)
  | inr t ↦ elim (Option-cases r.reply) [
    | inl n ↦ met (broken raised) false (no_reply r t n) (refl, t, n)
    | inr (reply, n) ↦ elim (on_time r reply t n) [
      | inl (c, q) ↦ met (broken generation_failed) false q (refl, t)
      | inr (c, q) ↦ elim (state_cases reply.status) [
        | inl (s, k) ↦
            met (done reply) false (rw s at q) (refl, t, n, (==_iff reply.code 200).0 c, k)
        | inr (inl s) ↦ met (broken generation_failed) false (rw s at q) (refl, t)
        | inr (inr s) ↦ let q' = rw s at q in absurd (clash (sym q' ∙ h))
      ]
    ]
  ]
]
  where
    clash :
        {f : Option Float} {e' : Ended} {d' : Bool} → ◌≡◌ {A = Step} (goes_on f) (ends e' d') → ⊥
    clash p = cc

    met : (e' : Ended) (d' : Bool) → poll_round r ≡ ends e' d' → Verdict r e' d' → Verdict r e d
    met e' d' q v =
        let same : ends e' d' ≡ ends e d = sym q ∙ h in
        let one : e' ≡ e = cc in
        let two : d' ≡ d = cc in subst (λ x. Verdict r e x) two (subst (λ x. Verdict r x d') one v)
