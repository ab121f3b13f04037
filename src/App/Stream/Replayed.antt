-- ===== src/App/Stream/Replayed.antt =====
-- What a client of the event stream of api/app/jobs_router.py gets.
use cosmos3_nano_web_ui.Common.{
  ℕ, zero, suc, ◌+◌, ◌-◌, ◌≤◌, ◌<◌, Bool, true, false, ltb, some, List, [], ◌∷◌, ◌++◌, map, any,
  has, length, drop, length-append, ◌≡◌, refl, sym, ap, ◌∙◌, subst, ◌⊎◌, inl, inr, Bool-cases,
  arith,
}
use mathlib.Core.List.{append_assoc, append-nil}
use cosmos3_nano_web_ui.Jobs.Events.{JobEvent, events_since}
use cosmos3_nano_web_ui.Jobs.Events.Replay.{CountsFrom, since_after}
use cosmos3_nano_web_ui.Common.Slices.{drop_nil, length-drop, drop-append}
use cosmos3_nano_web_ui.App.Stream.{
  Look, Frame, sent_event, heartbeat, last_sent, is_over, stops, Sent, gen, stream_events,
  terminal_event_types,
}

-- The events among the frames.
abbrev pub events_of : List Frame → List JobEvent
events_of [] = []
events_of (sent_event e ∷ fs) = e ∷ events_of fs
events_of (heartbeat n ∷ fs) = events_of fs

events_of-append : (fs gs : List Frame) → events_of (fs ++ gs) ≡ events_of fs ++ events_of gs
events_of-append [] gs = refl
events_of-append (sent_event e ∷ fs) gs = ap (λ r. e ∷ r) (events_of-append fs gs)
events_of-append (heartbeat n ∷ fs) gs = events_of-append fs gs

events_of-map : (es : List JobEvent) → events_of (map sent_event es) ≡ es
events_of-map [] = refl
events_of-map (e ∷ es) = ap (λ r. e ∷ r) (events_of-map es)

-- In a log that counts from `suc k`, the events after `c` are those that are left of it.
since-drop :
    (k c : ℕ) (log : List JobEvent)
    → k ≤ c
    → CountsFrom (suc k) log
    → events_since log (some c) ≡ drop (c - k) log
unfolding events_since
since-drop k c [] h n = sym (drop_nil {A = JobEvent} (c - k))
since-drop k c (e ∷ log) h n = elim (Bool-cases (ltb c e.id)) [
  | inl t ↦
      let now : c - k ≡ zero = ground arith in
      let later = since_after c (suc (suc k)) log (ground arith) n.1 in
      rw (now, t) (ap (λ r. e ∷ r) later)
  | inr t ↦
      let more : c - k ≡ suc (c - suc k) = ground arith in
      rw (more, t) (since-drop (suc k) c log (ground arith) n.1)
]

CountsFrom-drop :
    (k c : ℕ) (log : List JobEvent) → CountsFrom (suc k) log → CountsFrom (suc (k + c)) (drop c log)
CountsFrom-drop k zero log n = let e : k + 0 ≡ k = omega arith in rw e n
CountsFrom-drop k (suc c) [] n = tt
CountsFrom-drop k (suc c) (e ∷ log) n =
    let q : k + suc c ≡ suc k + c = omega arith in rw q (CountsFrom-drop (suc k) c log n.1)

last_sent_lem :
    (k : ℕ) (es : List JobEvent) → CountsFrom (suc k) es → last_sent k es ≡ k + length es
last_sent_lem k [] n = omega arith
last_sent_lem k (e ∷ es) n =
    ap (λ x. last_sent x es) n.0 ∙ (last_sent_lem (suc k) es n.1 ∙ omega arith)

drop-append_left :
    (c : ℕ) (xs ys : List JobEvent) → c ≤ length xs → drop c (xs ++ ys) ≡ drop c xs ++ ys
drop-append_left zero xs ys h = refl
drop-append_left (suc c) [] ys h = absurd (omega arith)
drop-append_left (suc c) (x ∷ xs) ys h = drop-append_left c xs ys (omega arith)

any-drop :
    (p : JobEvent → Bool) (c : ℕ) (xs : List JobEvent) → any p (drop c xs) ≡ true → any p xs ≡ true
any-drop p zero xs h = h
any-drop p (suc c) [] h = h
any-drop p (suc c) (x ∷ xs) h = let ih = any-drop p c xs h in ground arith

abbrev ends_it : JobEvent → Bool
ends_it e = has terminal_event_types e.type

-- The round that the stream ends in, its frames and the reason.
abbrev pub EndsIn : (ℕ → Look) → ℕ → ℕ → ℕ → ℕ → Sent → Type 0
EndsIn looks i c n m sent =
    (i ≤ m)
    × (m ≤ n)
    × (sent.closed ≡ true)
    × (events_of sent.frames ≡ drop c (looks m).log)
    × ((is_over (looks m).status ≡ true)
        ⊎ (any (λ e. has terminal_event_types e.type) (looks m).log ≡ true))
    × ((j : ℕ) → i ≤ j → j < m → is_over (looks j).status ≡ false)

module _ (looks : ℕ → Look)
    (grows : (i : ℕ) → (more : List JobEvent) × ((looks (suc i)).log ≡ (looks i).log ++ more))
    (counts : (i : ℕ) → CountsFrom 1 (looks i).log) where
  new_lem : (i c : ℕ) → events_since (looks i).log (some c) ≡ drop c (looks i).log
  new_lem i c =
      let e : c - 0 ≡ c = omega arith in
      since-drop 0 c (looks i).log (omega arith) (counts i) ∙ ap (λ k. drop k (looks i).log) e

  sent_lem :
      (i c : ℕ)
      → c ≤ length (looks i).log
      → last_sent c (drop c (looks i).log) ≡ length (looks i).log
  sent_lem i c h =
      let e : 0 + c ≡ c = omega arith in
      let n : CountsFrom (suc c) (drop c (looks i).log) =
        rw e at (CountsFrom-drop 0 c (looks i).log (counts i)) in
      last_sent_lem c (drop c (looks i).log) n ∙ omega (arith, length-drop c (looks i).log)

  gen-stops :
      (fuel i c : ℕ)
      → stops (drop c (looks i).log) (looks i).status ≡ true
      → gen (suc fuel) looks i c
        ≡ record { frames = map sent_event (drop c (looks i).log); closed = true }
  unfolding gen
  gen-stops fuel i c h = rw (gen, new_lem i c, h) refl

  gen-goes_on :
      (fuel i c : ℕ)
      → c ≤ length (looks i).log
      → stops (drop c (looks i).log) (looks i).status ≡ false
      → gen (suc fuel) looks i c ≡ record {
        frames =
            (map sent_event (drop c (looks i).log) ++ (heartbeat (length (looks i).log) ∷ []))
            ++ (gen fuel looks (suc i) (length (looks i).log)).frames;
        closed = (gen fuel looks (suc i) (length (looks i).log)).closed;
      }
  unfolding gen
  gen-goes_on fuel i c l h = rw (gen, new_lem i c, h, sent_lem i c l) refl

  -- A round that stops the stream sends what is left of its log.
  stopped :
      (fuel i c n : ℕ)
      → i ≤ n
      → stops (drop c (looks i).log) (looks i).status ≡ true
      → EndsIn looks i c n i (gen (suc fuel) looks i c)
  stopped fuel i c n h s =
      let e = gen-stops fuel i c s in
      (
        omega arith,
        h,
        ap Sent.closed e,
        ap (λ (x : Sent). events_of x.frames) e ∙ events_of-map (drop c (looks i).log),
        reason s,
        (λ j a b. absurd (omega arith)),
      )
    where
      reason :
          stops (drop c (looks i).log) (looks i).status ≡ true
          → (is_over (looks i).status ≡ true) ⊎ (any ends_it (looks i).log ≡ true)
      reason q = elim (Bool-cases (any ends_it (drop c (looks i).log))) [
        | inl a ↦ inr (any-drop ends_it c (looks i).log a)
        | inr a ↦ inl (ground arith)
      ]

  -- A round that goes on sends its events, and the rest of the stream the later ones.
  went_on :
      (fuel i c n m : ℕ) (x : List JobEvent)
      → c ≤ length (looks i).log
      → stops (drop c (looks i).log) (looks i).status ≡ false
      → (looks m).log ≡ (looks i).log ++ x
      → EndsIn looks
          (suc i)
          (length (looks i).log)
          n
          m
          (gen fuel looks (suc i) (length (looks i).log))
      → EndsIn looks i c n m (gen (suc fuel) looks i c)
  went_on fuel i c n m x l s whole later =
      let k = length (looks i).log in
      let new = drop c (looks i).log in
      let e = gen-goes_on fuel i c l s in
      (
        omega (arith, later.0),
        later.1,
        ap Sent.closed e ∙ later.2,
        ap (λ (y : Sent). events_of y.frames) e
            ∙ events_of-append (map sent_event new ++ (heartbeat k ∷ []))
                (gen fuel looks (suc i) k).frames
            ∙ ap (λ r. r ++ events_of (gen fuel looks (suc i) k).frames) (round_events new k)
            ∙ ap (λ r. new ++ r) (later.3 ∙ rest)
            ∙ all,
        later.4,
        earlier i m (ground arith) later.5,
      )
    where
      rest : drop (length (looks i).log) (looks m).log ≡ x
      rest = ap (drop (length (looks i).log)) whole ∙ drop-append (looks i).log x

      all : drop c (looks i).log ++ x ≡ drop c (looks m).log
      all = sym (drop-append_left c (looks i).log x l) ∙ ap (drop c) (sym whole)

      round_events :
          (es : List JobEvent) (k : ℕ) → events_of (map sent_event es ++ (heartbeat k ∷ [])) ≡ es
      round_events es k =
          events_of-append (map sent_event es) (heartbeat k ∷ [])
          ∙ ap (λ r. r ++ []) (events_of-map es)
          ∙ append-nil es

      earlier :
          (a m : ℕ)
          → is_over (looks a).status ≡ false
          → ((j : ℕ) → suc a ≤ j → j < m → is_over (looks j).status ≡ false)
          → (j : ℕ) → a ≤ j
          → j < m
          → is_over (looks j).status ≡ false
      earlier a m q r j x y = elim (Bool-cases (ltb a j)) [
        | inl t ↦ r j (ground arith) y
        | inr t ↦
            let same : a ≡ j = ground arith in subst (λ k. is_over (looks k).status ≡ false) same q
      ]

  gen_lem :
      (fuel i c n : ℕ)
      → c ≤ length (looks i).log
      → i ≤ n
      → n < i + fuel
      → is_over (looks n).status ≡ true
      → (m : ℕ) × (x : List JobEvent) × ((looks m).log ≡ (looks i).log ++ x)
        × EndsIn looks i c n m (gen fuel looks i c)
  gen_lem zero i c n l h f o = absurd (omega arith)
  gen_lem (suc fuel) i c n l h f o =
      elim (Bool-cases (stops (drop c (looks i).log) (looks i).status)) [
        | inl s ↦ (i, [], sym (append-nil (looks i).log), stopped fuel i c n h s)
        | inr s ↦
            let beyond : i < n = further i n h (ground arith) o in
            let grown = grows i in
            let longer : length (looks i).log ≤ length (looks (suc i)).log =
              omega (arith, ap length grown.1, length-append (looks i).log grown.0) in
            let later =
              gen_lem fuel (suc i) (length (looks i).log) n longer (omega arith) (omega arith) o in
            let x = grown.0 ++ later.1 in
            let whole : (looks later.0).log ≡ (looks i).log ++ x =
              later.2
              ∙ ap (λ r. r ++ later.1) grown.1
              ∙ append_assoc (looks i).log grown.0 later.1 in
            (later.0, x, whole, went_on fuel i c n later.0 x l s whole later.3)
      ]
    where
      further :
          (a b : ℕ)
          → a ≤ b
          → is_over (looks a).status ≡ false
          → is_over (looks b).status ≡ true
          → a < b
      further a b p q r = elim (Bool-cases (ltb a b)) [
        | inl t ↦ ground arith
        | inr t ↦
            let same : a ≡ b = ground arith in
            let q' = subst (λ k. is_over (looks k).status ≡ false) same q in absurd (cc)
      ]

-- For a log that counts from 1 and only grows, and a client that has had its first `c` events: where
-- the job is over or gone in some round, the stream ends there or before. Heartbeats aside, the client
-- gets the events after `c` of the last round's log, each once and in order. And the stream ends only
-- in a round in which the job is over or gone, or whose log has a terminal event.
pub stream_events_total :
    (looks : ℕ → Look) (fuel c n : ℕ)
    → ((i : ℕ) → (more : List JobEvent) × ((looks (suc i)).log ≡ (looks i).log ++ more))
    → ((i : ℕ) → CountsFrom 1 (looks i).log)
    → c ≤ length (looks 0).log
    → n < fuel
    → is_over (looks n).status ≡ true
    → (m : ℕ) × EndsIn looks 0 c n m (stream_events fuel looks (some c))
unfolding stream_events
stream_events_total looks fuel c n grows counts h f o =
    let ended = gen_lem looks grows counts fuel 0 c n h (omega arith) (omega arith) o in
    (ended.0, ended.3)
