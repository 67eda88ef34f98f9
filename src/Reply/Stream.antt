-- ===== src/Reply/Stream.antt =====
-- What `StreamingReplyExtractor` of src/openvoice/agent/structured_reply.py releases, for every
-- way in which a completion is cut into deltas.
mod Feeding
use open_voice.Base.{
  ℕ, suc, ◌+◌, ◌-◌, ◌≤◌, ◌≡◌, ◌≢◌, refl, sym, ap, subst, ◌∙◌, ◌⊎◌, inl, inr, Bool, true, false,
  Option, none, some, List, [], ◌∷◌, ◌++◌, append-nil, append_assoc, arith, Option-cases,
  Bool-cases, length, take, drop, concat, leb, if◌then◌else◌, is_empty,
}
use open_voice.Base.Text.{Text, rstrip, strip, find, strip_of_rstrip}
use open_voice.Reply.{
  Intent, Extractor, fresh, feed_all, finalize, intent_marker, intent_of_label,
  parse_structured_reply,
}
use Feeding.{Waiting, Found, FedAt, Fed, fresh-Fed, Fed-at, feed_all-Fed, released-feed_all}

finalize_found :
    (e : Extractor)
    → e.marker_found ≡ true
    → (finalize e).0 ≡ (e.released, [], intent_of_label e.after_marker)
unfolding finalize
finalize_found e q = rw (q, finalize)

finalize_waiting :
    (e : Extractor)
    → e.marker_found ≡ false
    → (finalize e).0 ≡ (e.released ++ e.pending, e.pending, Intent.general)
unfolding finalize
finalize_waiting e q = rw (q, finalize)

parse_none :
    (t : Text) → find intent_marker t ≡ none → parse_structured_reply t ≡ (Intent.general, strip t)
unfolding parse_structured_reply
parse_none t h = ground arith

parse_some :
    (t : Text) (i : ℕ)
    → find intent_marker t ≡ some i
    → ((parse_structured_reply t).0 ≡ intent_of_label (drop (i + 10) t))
      × (strip (take i t) ≢ [] → strip (take i t) ≡ (parse_structured_reply t).1)
unfolding parse_structured_reply
parse_some t i h = elim (Bool-cases (is_empty (strip (take i t)))) [
  | inl e ↦ (ground arith, λ ne. ground arith)
  | inr e ↦ (ground arith, λ ne. ground arith)
]

-- How what was released so far, `out`, and the result of `finalize` stand to the whole text.
abbrev Agrees : Text → Text → Text × Text × Intent → Type 0
Agrees t out (full, trailing, intent) =
    (out ++ trailing ≡ full)
    × (intent ≡ (parse_structured_reply t).0)
    × (strip full ≢ [] → strip full ≡ (parse_structured_reply t).1)

Found-Agrees :
    (t : Text) (e : Extractor)
    → Found t e
    → Agrees t e.released (e.released, [], intent_of_label e.after_marker)
Found-Agrees t e f =
    let (label, reply) = parse_some t f.index f.first in
    let same = strip_of_rstrip e.released (take f.index t) f.trimmed in
    (
      append-nil e.released,
      ap intent_of_label f.label ∙ sym label,
      λ ne. same ∙ reply (λ none_left. ne (same ∙ none_left)),
    )

Waiting-Agrees :
    (t : Text) (e : Extractor)
    → Waiting t e
    → Agrees t e.released (e.released ++ e.pending, e.pending, Intent.general)
Waiting-Agrees t e w = (refl, rw (parse_none t w.unseen), λ ne. rw (parse_none t w.unseen, w.whole))

finalize-Agrees : (t : Text) (e : Extractor) → Fed t e → Agrees t e.released (finalize e).0
finalize-Agrees t e f = elim (Bool-cases e.marker_found) [
  | inl q ↦ rw (finalize_found e q) (Found-Agrees t e (Fed-at true t e q f))
  | inr q ↦ rw (finalize_waiting e q) (Waiting-Agrees t e (Fed-at false t e q f))
]

or_blank : (t r : Text) → (t ≢ [] → t ≡ r) → (t ≡ []) ⊎ (t ≡ r)
or_blank [] r h = inl refl
or_blank (c ∷ t) r h = inr (h cc)

-- For every sequence of deltas: the pieces that were released, and the trailing text, make the
-- full reply; the intent is the one that `parse_structured_reply` finds in the whole completion;
-- and the full reply, stripped, is the reply that it finds, if there is any text before the marker.
pub finalize-feed_all :
    (ds : List Text)
    → let (outs, e) = feed_all fresh ds in
      let ((full, trailing, intent), _) = finalize e in
      let (whole_intent, reply) = parse_structured_reply (concat ds) in
      (concat outs ++ trailing ≡ full)
      × (intent ≡ whole_intent)
      × ((strip full ≡ []) ⊎ (strip full ≡ reply))
finalize-feed_all ds = rw (released-feed_all ds fresh) (
    let (pieces, intent, text) =
      finalize-Agrees (concat ds) (feed_all fresh ds).1 (feed_all-Fed [] ds fresh fresh-Fed) in
    (pieces, intent, or_blank _ _ text))

-- If the completion has a marker, at `i`, then what is spoken is the text before it, less some
-- blanks at its end: no character of the marker or behind it is ever released. Without a marker
-- all of the text is spoken, unchanged.
pub finalize_spoken :
    (ds : List Text)
    → let full = (finalize (feed_all fresh ds).1).0.0 in
      ((find intent_marker (concat ds) ≡ none) × (full ≡ concat ds))
      ⊎ ((i : ℕ) × (find intent_marker (concat ds) ≡ some i)
          × ((w : Text) × (take i (concat ds) ≡ full ++ w) × (rstrip w ≡ [])))
finalize_spoken ds =
    let e = (feed_all fresh ds).1 in
    let f = feed_all-Fed [] ds fresh fresh-Fed in
    elim (Bool-cases e.marker_found) [
      | inl q ↦
          let g = Fed-at true (concat ds) e q f in
          rw (finalize_found e q) (inr (g.index, g.first, (g.rest, g.before, g.blank)))
      | inr q ↦
          let w = Fed-at false (concat ds) e q f in
          rw (finalize_waiting e q) (inl (w.unseen, w.whole))
    ]
