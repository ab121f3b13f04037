-- ===== src/Engines/Tests.antt =====
-- Instances of the theorems on the reasoning engine's checks.
use cosmos3_nano_web_ui.Common.{pos, ◌≡◌, ◌↔◌, ◌≤ℤ◌, true, none, List, [], ◌∷◌, All}
use cosmos3_nano_web_ui.Engines.ContextCap.{
  ContextCapConfig, validate_context, plus, validate_context_iff,
}
use cosmos3_nano_web_ui.Engines.CoResidency.{
  VramSample, vllm_up, vllm_down, generation_up, handoff_ok, Sampled, AtLeast, AtMost,
  handoff_ok_iff,
}
use cosmos3_nano_web_ui.Common.{ℕ, some, if◌then◌else◌, ltb, leb, refl}
use cosmos3_nano_web_ui.Common.Float
use cosmos3_nano_web_ui.Engines.Omni.{Reply, Round}
use cosmos3_nano_web_ui.Engines.Omni.Work.{Outside, Record, wrote, unopened, cut}
use cosmos3_nano_web_ui.Common.{ok, length, ◌<◌}
use cosmos3_nano_web_ui.Common.Dict
use cosmos3_nano_web_ui.Checkpoint.Probe.{ends_with}
use cosmos3_nano_web_ui.Engines.Preflight.{
  Headers, File, is_dropped, is_kept, verdict_loop, reasoner_source_verdict,
  read_safetensors_header, read_transformer_headers, assert_reasoner_source,
}
use cosmos3_nano_web_ui.Engines.Preflight.Servable.{
  IsPlain, HasTower, IsReadable, assert_reasoner_source_iff,
}

abbrev window : ContextCapConfig
window = record { max_context_tokens = pos 32768; max_output_tokens = pos 32768 }

validate_context_iff_example :
    ((validate_context (pos 30000) (pos 2768) window ≡ none) ↔ (
      (pos 1 ≤ℤ pos 30000)
      × (pos 1 ≤ℤ pos 2768)
      × (pos 2768 ≤ℤ pos 32768)
      × (plus (pos 30000) (pos 2768) ≤ℤ pos 32768)))
    × (validate_context (pos 30000) (pos 2768) window ≡ none
        → plus (pos 30000) (pos 1) ≤ℤ pos 32768)
validate_context_iff_example = validate_context_iff (pos 30000) (pos 2768) window

abbrev swap : List VramSample
swap =
    (record { label = vllm_up; resident_bytes = pos 26 })
    ∷ (record { label = vllm_down; resident_bytes = pos 1 })
    ∷ (record { label = generation_up; resident_bytes = pos 28 })
    ∷ []

handoff_ok_iff_example : (handoff_ok swap (pos 32) (pos 2) (pos 10) ≡ true) ↔ (
    All (λ (s : VramSample). s.resident_bytes ≤ℤ pos 32) swap
    × Sampled vllm_up swap
    × AtLeast vllm_up (pos 10) swap
    × Sampled generation_up swap
    × AtLeast generation_up (pos 10) swap
    × Sampled vllm_down swap
    × AtMost vllm_down (pos 2) swap)
handoff_ok_iff_example = handoff_ok_iff swap (pos 32) (pos 2) (pos 10)

abbrev running_reply : Reply
running_reply = record {
  code = 200;
  status = "in_progress";
  progress = some Float.one;
  action = none;
}

abbrev done_reply : Reply
done_reply = record { code = 200; status = "completed"; progress = none; action = none }

-- The server answers twice that the job runs, and then that it is completed; round 9 is late.
abbrev session : ℕ → Round
session i = record {
  late = leb 9 i;
  reply = if ltb i 2 then some running_reply else some done_reply;
  ramp = Float.zero;
}

-- A job that needs an image, and whose video is cut off as it is written.
abbrev outside : Outside
outside = record {
  resolve = λ p. some p;
  image_cap = 10;
  video_cap = 20;
  media = λ p. record { bytes = some (1 ∷ []); size = 1 };
  id = some (some "v1");
  fuel = 10;
  rounds = session;
  expected = Float.one;
  download = some (7 ∷ []);
  image = some (some "AA==");
  decode = λ s. some (0 ∷ []);
  write_png = λ b. wrote "/out/a.png";
  write_video = λ b. cut;
  write_trajectory = λ xs. unopened;
}

abbrev animation : Record
animation = record {
  mode = "i2v";
  image_path = some "/in/a.png";
  video_path = none;
  audio_path = none;
}

abbrev bf16_header : Headers
bf16_header = ("layers.0.mlp.up_proj.weight", some "BF16") ∷ ("proj_in.weight", some "F8_E4M3") ∷ []

abbrev bf16_files : List File
bf16_files = record { declared = 96; header = some bf16_header } ∷ []

bf16_passes : assert_reasoner_source (λ s. s) bf16_files ≡ none
unfolding assert_reasoner_source read_transformer_headers read_safetensors_header
    reasoner_source_verdict verdict_loop is_kept is_dropped ends_with Dict.put
bf16_passes = refl

assert_reasoner_source_iff_example :
    ((assert_reasoner_source (λ s. s) bf16_files ≡ none) ↔ (
      (h : Headers) × (read_transformer_headers bf16_files ≡ ok h)
      × All (IsPlain (λ s. s)) h
      × HasTower h))
    × (assert_reasoner_source (λ s. s) bf16_files ≡ none
        → (0 < length bf16_files) × All IsReadable bf16_files)
assert_reasoner_source_iff_example = assert_reasoner_source_iff (λ s. s) bf16_files
