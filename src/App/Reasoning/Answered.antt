-- ===== src/App/Reasoning/Answered.antt =====
-- What `POST /v1/reason` of api/app/routes/reasoning.py accepts and sends.
use cosmos3_nano_web_ui.Common.{
  ℕ, ℤ, pos, ◌≤ℤ◌, Option, none, some, ◌↔◌, ◌∙◌, String, List, [], ◌∷◌, Result, ok, ◌≡◌, refl, sym,
  ap, inl, inr, Option-cases, Result-cases, arith,
}
use cosmos3_nano_web_ui.Engines.ContextCap.{
  ContextCapConfig, validate_context, plus, validate_context_iff,
}
use cosmos3_nano_web_ui.App.Reasoning.{
  ReasoningBody, Refusal, Payload, lesser, greater, less, effective, contained, reason, Item, idle,
  delta, failure, sentinel, Chunk, token, problem, heartbeat, done, relay,
}

-- The budget that is sent on. One that is asked for is sent as it is, and is to be from 1 to the output
-- cap and to fit the window together with the prompt. An omitted one is the smaller of the output cap
-- and what the prompt leaves of the window; there is to be room for one token. The prompt has a token.
abbrev pub Budget : ContextCapConfig → ℕ → Option ℤ → ℤ → Type 0
Budget cfg prompt (some asked) m =
    (m ≡ asked)
    × (pos 1 ≤ℤ pos prompt)
    × (pos 1 ≤ℤ m)
    × (m ≤ℤ cfg.max_output_tokens)
    × (plus (pos prompt) m ≤ℤ cfg.max_context_tokens)
Budget cfg prompt none m =
    (m ≡ lesser cfg.max_output_tokens (less cfg.max_context_tokens prompt))
    × (pos 1 ≤ℤ pos prompt)
    × (pos 1 ≤ℤ cfg.max_output_tokens)
    × (plus (pos prompt) (pos 1) ≤ℤ cfg.max_context_tokens)

-- With room for a token, the budget that is chosen for an omitted one is at least 1 and fits.
omitted_iff :
    (output context : ℤ) (prompt : ℕ)
    → ((pos 1 ≤ℤ lesser output (greater (pos 1) (less context prompt)))
        × (lesser output (greater (pos 1) (less context prompt)) ≤ℤ output)
        × (plus (pos prompt) (lesser output (greater (pos 1) (less context prompt))) ≤ℤ context))
      ↔ ((pos 1 ≤ℤ output) × (plus (pos prompt) (pos 1) ≤ℤ context))
omitted_iff (ℤ.pos o) (ℤ.pos c) prompt = ground arith
omitted_iff (ℤ.pos o) (ℤ.negsuc c) prompt = ground arith
omitted_iff (ℤ.negsuc o) (ℤ.pos c) prompt = ground arith
omitted_iff (ℤ.negsuc o) (ℤ.negsuc c) prompt = ground arith

omitted_room :
    (output context : ℤ) (prompt : ℕ)
    → plus (pos prompt) (pos 1) ≤ℤ context
    → lesser output (greater (pos 1) (less context prompt)) ≡ lesser output (less context prompt)
omitted_room output (ℤ.pos c) prompt h =
    let e : greater (pos 1) (less (pos c) prompt) ≡ less (pos c) prompt = ground arith in
    ap (lesser output) e
omitted_room output (ℤ.negsuc c) prompt h = absurd (ground arith)

effective-Budget :
    (cfg : ContextCapConfig) (prompt : ℕ) (asked : Option ℤ) (m : ℤ)
    → ((validate_context (pos prompt) (effective cfg prompt asked) cfg ≡ none)
        × (m ≡ effective cfg prompt asked))
      ↔ Budget cfg prompt asked m
unfolding effective
effective-Budget cfg prompt (some n) m =
    let v = (validate_context_iff (pos prompt) n cfg).0 in
    (
      λ (h, e). let b = v.0 h in (e, b.0, rw e b.1, rw e b.2, rw e b.3),
      λ (e, a, b, c, d). (v.1 (a, rw e at b, rw e at c, rw e at d), e),
    )
effective-Budget cfg prompt none m =
    let v = (validate_context_iff (pos prompt) (effective cfg prompt none) cfg).0 in
    let o = omitted_iff cfg.max_output_tokens cfg.max_context_tokens prompt in
    let room = omitted_room cfg.max_output_tokens cfg.max_context_tokens prompt in
    (
      λ (h, e). let b = v.0 h in let r = o.0 (b.1, b.2, b.3) in (e ∙ room r.1, b.0, r.0, r.1),
      λ (e, a, b, c). let r = o.1 (b, c) in (v.1 (a, r.0, r.1, r.2), e ∙ sym (room c)),
    )

reason-valid :
    (resolve : String → Option String) (cfg : ContextCapConfig) (prompt : ℕ) (body : ReasoningBody)
    (p : Payload)
    → reason resolve cfg prompt body ≡ ok p
    → (validate_context (pos prompt) (effective cfg prompt body.max_output_tokens) cfg ≡ none)
      × (p.max_tokens ≡ effective cfg prompt body.max_output_tokens)
      × (contained resolve body.image_path ≡ ok p.image_path)
      × (contained resolve body.video_path ≡ ok p.video_path)
unfolding reason
reason-valid resolve cfg prompt body p h =
    elim (Option-cases
      (validate_context (pos prompt) (effective cfg prompt body.max_output_tokens) cfg)) [
        | inr (x, e) ↦ let h' = rw (reason, e) at h in absurd (cc)
        | inl e ↦
            let h' = rw (reason, e) at h in
            elim (Result-cases (contained resolve body.image_path)) [
              | inr (x, i) ↦ let h'' = rw i at h' in absurd (cc)
              | inl (image, i) ↦ elim (Result-cases (contained resolve body.video_path)) [
                | inr (x, v) ↦ let h'' = rw (i, v) at h' in absurd (cc)
                | inl (video, v) ↦
                    let h'' = rw (i, v) at h' in
                    let s = same p image video h'' in (e, s.0, i ∙ ap ok s.1, v ∙ ap ok s.2)
              ]
            ]
      ]
  where
    same :
        (q : Payload) (image video : Option String)
        → ◌≡◌ {A = Result Refusal Payload}
            (ok record {
              max_tokens = effective cfg prompt body.max_output_tokens;
              image_path = image;
              video_path = video;
            })
            (ok q)
        → (q.max_tokens ≡ effective cfg prompt body.max_output_tokens)
          × (image ≡ q.image_path)
          × (video ≡ q.video_path)
    same q image video r =
        let s : ◌≡◌ {A = Payload}
            record {
              max_tokens = effective cfg prompt body.max_output_tokens;
              image_path = image;
              video_path = video;
            }
            q =
          cc in
        (
          ap (λ (x : Payload). x.max_tokens) (sym s),
          ap (λ (x : Payload). x.image_path) s,
          ap (λ (x : Payload). x.video_path) s,
        )

reason-accepts :
    (resolve : String → Option String) (cfg : ContextCapConfig) (prompt : ℕ) (body : ReasoningBody)
    (image video : Option String)
    → validate_context (pos prompt) (effective cfg prompt body.max_output_tokens) cfg ≡ none
    → contained resolve body.image_path ≡ ok image
    → contained resolve body.video_path ≡ ok video
    → reason resolve cfg prompt body
      ≡ ok record {
        max_tokens = effective cfg prompt body.max_output_tokens;
        image_path = image;
        video_path = video;
      }
unfolding reason
reason-accepts resolve cfg prompt body image video e i v = rw (reason, e, i, v) refl

-- A reasoning request is accepted exactly where its prompt has a token, its image and video paths are
-- contained or empty, and its budget is in bounds: one that is asked for is from 1 to the output cap
-- and fits the window together with the prompt; for an omitted one the output cap is at least 1 and the
-- window has room for the prompt and one token. What is sent on are the resolved paths and the budget,
-- for an omitted one the smaller of the output cap and of what the prompt leaves of the window. This
-- holds for any two integers as the window and the output cap.
pub reason_iff :
    (resolve : String → Option String) (cfg : ContextCapConfig) (prompt : ℕ) (body : ReasoningBody)
    (p : Payload)
    → (reason resolve cfg prompt body ≡ ok p) ↔ (
        Budget cfg prompt body.max_output_tokens p.max_tokens
        × (contained resolve body.image_path ≡ ok p.image_path)
        × (contained resolve body.video_path ≡ ok p.video_path))
reason_iff resolve cfg prompt body p =
    let budget = effective-Budget cfg prompt body.max_output_tokens p.max_tokens in
    (
      λ h. let (e, m, i, v) = reason-valid resolve cfg prompt body p h in (budget.0 (e, m), i, v),
      λ (b, i, v).
          let (e, m) = budget.1 b in
          reason-accepts resolve cfg prompt body p.image_path p.video_path e i v
          ∙ ap ok (payload m),
    )
  where
    payload :
        p.max_tokens ≡ effective cfg prompt body.max_output_tokens
        → ◌≡◌ {A = Payload}
            record {
              max_tokens = effective cfg prompt body.max_output_tokens;
              image_path = p.image_path;
              video_path = p.video_path;
            }
            p
    payload m = rw (sym m) refl

-- The deltas among the items, and the tokens among the events.
abbrev deltas : List Item → List String
deltas [] = []
deltas (delta d ∷ items) = d ∷ deltas items
deltas (idle ∷ items) = deltas items
deltas (failure m ∷ items) = []
deltas (sentinel ∷ items) = []

abbrev tokens : List Chunk → List String
tokens [] = []
tokens (token d ∷ chunks) = d ∷ tokens chunks
tokens (problem m ∷ chunks) = tokens chunks
tokens (heartbeat ∷ chunks) = tokens chunks
tokens (done ∷ chunks) = tokens chunks

-- The relay passes on each delta up to the end or the failure, in order.
tokens-relay : (items : List Item) → tokens (relay items) ≡ deltas items
unfolding relay
tokens-relay [] = refl
tokens-relay (idle ∷ items) = tokens-relay items
tokens-relay (delta d ∷ items) = ap (λ r. d ∷ r) (tokens-relay items)
tokens-relay (failure m ∷ items) = refl
tokens-relay (sentinel ∷ items) = refl
