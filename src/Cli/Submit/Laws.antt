-- ===== src/Cli/Submit/Laws.antt =====
-- When the printing of responses runs out of responses.
use grafain.Prelude.{
  ◌≡◌, ◌≢◌, ◌≤◌, ap, ◌∙◌, some, List, [], ◌∷◌, Bytes, ◌==◌, arith, Option-cases, inl, inr, length,
  All, Bool-cases,
}
use grafain.Weave.{panic, Result, err, Result-cases}
use grafain.App.Sums.{Msg}
use grafain.Cli.Sequence.{from_sequence}
use grafain.Cli.Submit.{
  Formatters, formatter, response_at, Responses, format_responses, fmt_sequence, formatters, Paths,
}

-- No formatter panics.
abbrev pub Calm : Formatters → Type 0
Calm fmts = All (λ (f : Bytes × (Bytes → Result Bytes)). (d : Bytes) → f.1 d ≢ err panic) fmts

formatter-Calm :
    (fmts : Formatters)
    → Calm fmts
    → (path : Bytes) {format : Bytes → Result Bytes} → formatter path fmts ≡ some format
    → (d : Bytes) → format d ≢ err panic
unfolding formatter
formatter-Calm [] calm path found d e = absurd (ground arith)
formatter-Calm ((p, f) ∷ rest) (calm, more) path {format} found d e =
    elim (Bool-cases (p == path)) [
      | inl here ↦
          let same : f ≡ format = ground (arith, found, here) in
          calm d (ap (λ (g : Bytes → Result Bytes). g d) same ∙ e)
      | inr later ↦
          formatter-Calm rest more path {format = format} (ground (arith, found, later)) d e
    ]

module _ {P : Type 0} (R : Responses P) (fmts : Formatters) where
  -- The loop does not index past the responses if there is one for each message.
  pub format_responses-in_range :
      Calm fmts
      → (msgs : List (Msg P)) (responses_data : List Bytes) → length msgs ≤ length responses_data
      → format_responses R fmts msgs responses_data ≢ err panic
  unfolding format_responses response_at
  format_responses-in_range calm msgs responses_data h = go msgs responses_data h
    where
      go :
          (msgs : List (Msg P)) (ds : List Bytes)
          → length msgs ≤ length ds
          → format_responses R fmts msgs ds ≢ err panic
      go [] ds h e = ground arith
      go (m ∷ ms) [] h e = absurd (omega arith)
      go (m ∷ ms) (d ∷ ds) h e = elim (Option-cases (formatter (R.path m) fmts)) [
        | inl silent ↦ go ms ds (omega arith) (ground (arith, e, silent))
        | inr (format, found) ↦ elim (Result-cases (format d)) [
          | inr (x, bad) ↦
              formatter-Calm fmts calm (R.path m) found d (ground (arith, e, found, bad))
          | inl (pretty, good) ↦ elim (Result-cases (format_responses R fmts ms ds)) [
            | inl (out, fine) ↦ ground (arith, e, found, good, fine)
            | inr (x, failed) ↦
                go ms ds (omega arith) (failed ∙ ground (arith, e, found, good, failed))
          ]
        ]
      ]

fmt_sequence-Calm : (d : Bytes) → fmt_sequence d ≢ err panic
unfolding fmt_sequence
fmt_sequence-Calm d e = elim (Option-cases (from_sequence d)) [
  | inl none_read ↦ ground (arith, e, none_read)
  | inr (n, read) ↦ ground (arith, e, read)
]

-- The formatters of the command do not panic.
pub formatters-Calm : (p : Paths) → Calm (formatters p)
unfolding formatters
formatters-Calm p = let f = fmt_sequence-Calm in (f, (f, (f, (f, (f, (f, tt))))))
