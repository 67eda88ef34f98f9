-- ===== src/Reply/Tests.antt =====
-- Runs of the parser and the extractor, and the instances of the theorems about them.
use open_voice.Base.{◌≡◌, ◌≢◌, refl, ◌⊎◌, ℕ, none, some, List, [], ◌∷◌, ◌++◌, concat, take}
use open_voice.Base.Text.{Text, codes, is_space, lstrip, rstrip, strip, lower, find}
use open_voice.Reply.{
  Intent, fresh, feed, feed_all, finalize, intent_of, intent_of_label, intent_marker, newline,
  parse_structured_reply,
}
use open_voice.Reply.Batch.{written, parse_structured_reply-written}
use open_voice.Reply.Stream.{finalize-feed_all, finalize_spoken}

-- A completion cut inside the marker and inside the label.
abbrev deltas : List Text
deltas =
    codes "Sure, I can book that."
    ∷ (newline ++ codes "##")
    ∷ codes "#INT"
    ∷ codes "ENT: boo"
    ∷ codes "king"
    ∷ []

stream_run :
    (finalize (feed_all fresh deltas).1).0 ≡ (codes "Sure, I can book that.", [], Intent.booking)
unfolding finalize feed_all feed intent_of_label intent_of rstrip lstrip strip is_space lower find
stream_run = refl

batch_run :
    parse_structured_reply (concat deltas) ≡ (Intent.booking, codes "Sure, I can book that.")
unfolding parse_structured_reply intent_of_label intent_of strip is_space lower find
batch_run = refl

finalize-feed_all_example :
    let (outs, e) = feed_all fresh deltas in
    let ((full, trailing, intent), _) = finalize e in
    let (whole_intent, reply) = parse_structured_reply (concat deltas) in
    (concat outs ++ trailing ≡ full)
    × (intent ≡ whole_intent)
    × ((strip full ≡ []) ⊎ (strip full ≡ reply))
finalize-feed_all_example = finalize-feed_all deltas

finalize_spoken_example :
    let full = (finalize (feed_all fresh deltas).1).0.0 in
    ((find intent_marker (concat deltas) ≡ none) × (full ≡ concat deltas))
    ⊎ ((i : ℕ) × (find intent_marker (concat deltas) ≡ some i)
        × ((w : Text) × (take i (concat deltas) ≡ full ++ w) × (rstrip w ≡ [])))
finalize_spoken_example = finalize_spoken deltas

hello_not_blank : strip (codes "Hello.") ≢ []
unfolding strip is_space
hello_not_blank e = cc

no_marker : find intent_marker (codes "Hello.") ≡ none
unfolding find
no_marker = refl

parse_structured_reply-written_example :
    parse_structured_reply (written (codes "Hello.") Intent.urgent)
    ≡ (Intent.urgent, strip (codes "Hello."))
parse_structured_reply-written_example =
    parse_structured_reply-written (codes "Hello.") Intent.urgent no_marker hello_not_blank
