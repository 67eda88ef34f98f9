-- ===== src/Reply/Stream/Feeding.antt =====
-- The state of `StreamingReplyExtractor` (src/openvoice/agent/structured_reply.py) against the text
-- that it was fed so far.
use open_voice.Base.{
  ℕ, ◌+◌, ◌-◌, ◌≤◌, ◌≡◌, refl, sym, ap, subst, ◌∙◌, ◌⊎◌, inl, inr, Bool, true, false, none, some,
  List, [], ◌∷◌, ◌++◌, append-nil, append_assoc, arith, Option-cases, Bool-cases, length, take,
  drop, concat, leb, length-append, length-drop, take-append-drop, take-append, drop-append,
  take-append_add, drop-append_add,
}
use mathlib.Core.Option
use open_voice.Base.Text.{
  Text, rstrip, find, rstrip_prefix, find_bound, find-append_some, find-append_settled,
  map_zero-add, rstrip-append-rstrip,
}
use open_voice.Reply.{
  Extractor, fresh, feed, feed_all, intent_marker, release_to_marker, release_settled,
}

-- No marker in the text `t` fed so far: all of it is released or pending, and what is released
-- cannot be the start of a marker.
pub record Waiting (t : Text) (e : Extractor) : Type 0 where
  pub whole : e.released ++ e.pending ≡ t
  pub unseen : find intent_marker t ≡ none
  pub held : (e.released ≡ []) ⊎ (9 ≤ length e.pending)

-- The marker stands at `index`: what is released is the text before it, up to blanks at its end.
pub record Found (t : Text) (e : Extractor) : Type 0 where
  pub index : ℕ
  pub first : find intent_marker t ≡ some index
  pub label : e.after_marker ≡ drop (index + 10) t
  pub trimmed : rstrip e.released ≡ rstrip (take index t)
  pub rest : Text
  pub before : take index t ≡ e.released ++ rest
  pub blank : rstrip rest ≡ []

abbrev pub FedAt : Bool → Text → Extractor → Type 0
FedAt false t e = Waiting t e
FedAt true t e = Found t e

abbrev pub Fed : Text → Extractor → Type 0
Fed t e = FedAt e.marker_found t e

pub fresh-Fed : Fed [] fresh
unfolding find
fresh-Fed = record { whole = refl; unseen = refl; held = inl refl }

find-held :
    (r p d : Text)
    → (r ≡ []) ⊎ (9 ≤ length p)
    → find intent_marker (r ++ p) ≡ none
    → find intent_marker (r ++ (p ++ d))
      ≡ Option.map (λ i. length r + i) (find intent_marker (p ++ d))
find-held [] p d h u = map_zero-add (find intent_marker (p ++ d))
find-held (c ∷ r) p d (inl e) u = cc
find-held (c ∷ r) p d (inr h) u = find-append_settled intent_marker (c ∷ r) p d (omega arith) u

module _ (t d : Text) (e : Extractor) where
  Found-append : Found t e → Found (t ++ d) (record e { after_marker = e.after_marker ++ d })
  Found-append f =
      let fits = find_bound intent_marker t f.index f.first in
      record {
        index = f.index;
        first = find-append_some intent_marker t d f.index f.first;
        label = ap (λ x. x ++ d) f.label ∙ sym (drop-append (f.index + 10) t d fits);
        trimmed = f.trimmed ∙ ap rstrip (sym (take-append f.index t d (omega arith)));
        rest = f.rest;
        before = take-append f.index t d (omega arith) ∙ f.before;
        blank = f.blank;
      }

module _ (t d : Text) (e : Extractor) (w : Waiting t e) where
  whole-append : t ++ d ≡ e.released ++ (e.pending ++ d)
  whole-append = ap (λ x. x ++ d) (sym w.whole) ∙ append_assoc e.released e.pending d

  find-Waiting :
      find intent_marker (t ++ d)
      ≡ Option.map (λ i. length e.released + i) (find intent_marker (e.pending ++ d))
  find-Waiting =
      ap (find intent_marker) whole-append
      ∙ find-held e.released e.pending d w.held (ap (find intent_marker) w.whole ∙ w.unseen)

  take_before :
      (i : ℕ) → take (length e.released + i) (t ++ d) ≡ e.released ++ take i (e.pending ++ d)
  take_before i =
      ap (take (length e.released + i)) whole-append ∙ take-append_add e.released (e.pending ++ d) i

  release_to_marker-Found :
      (i : ℕ)
      → find intent_marker (e.pending ++ d) ≡ some i
      → Found (t ++ d) (release_to_marker e (e.pending ++ d) i).1
  release_to_marker-Found i h =
      let rest = e.pending ++ d in
      let n = length e.released in
      record {
        index = n + i;
        first = find-Waiting ∙ ap (Option.map (λ j. n + j)) h;
        label = sym (
            ap (drop (n + i + 10)) whole-append
            ∙ ap (λ m. drop m (e.released ++ rest)) (omega arith)
            ∙ drop-append_add e.released rest (i + 10));
        trimmed = rstrip-append-rstrip e.released (take i rest) ∙ ap rstrip (sym (take_before i));
        rest = (rstrip_prefix (take i rest)).0;
        before =
            take_before i
            ∙ ap (λ x. e.released ++ x) (rstrip_prefix (take i rest)).1
            ∙ sym (append_assoc e.released (rstrip (take i rest)) (rstrip_prefix (take i rest)).0);
        blank = (rstrip_prefix (take i rest)).2;
      }

  keep_all-Waiting :
      find intent_marker (e.pending ++ d) ≡ none
      → Waiting (t ++ d) (record e { pending = e.pending ++ d })
  keep_all-Waiting h = record {
    whole = sym whole-append;
    unseen = find-Waiting ∙ ap (Option.map (λ i. length e.released + i)) h;
    held = elim w.held [
      | inl none_out ↦ inl none_out
      | inr long ↦ inr (omega (arith, length-append e.pending d))
    ];
  }

  release_cut-Waiting :
      (cut : ℕ)
      → cut + 9 ≤ length (e.pending ++ d)
      → find intent_marker (e.pending ++ d) ≡ none
      → Waiting (t ++ d) (record e {
        pending = drop cut (e.pending ++ d);
        released = e.released ++ take cut (e.pending ++ d);
      })
  release_cut-Waiting cut fits h =
      let rest = e.pending ++ d in
      record {
        whole =
            append_assoc e.released (take cut rest) (drop cut rest)
            ∙ ap (λ x. e.released ++ x) (take-append-drop cut rest)
            ∙ sym whole-append;
        unseen = find-Waiting ∙ ap (Option.map (λ i. length e.released + i)) h;
        held = inr (omega (arith, length-drop cut rest));
      }

  release_settled-Waiting :
      find intent_marker (e.pending ++ d) ≡ none
      → Waiting (t ++ d) (release_settled e (e.pending ++ d)).1
  release_settled-Waiting h = elim (Bool-cases (leb (length (e.pending ++ d)) 9)) [
    | inl short ↦ rw short (keep_all-Waiting h)
    | inr long ↦ rw long (release_cut-Waiting (length (e.pending ++ d) - 9) (ground arith) h)
  ]

module _ (e : Extractor) (c : ℕ) (d : Text) where
  feed_found :
      e.marker_found ≡ true
      → feed e (c ∷ d) ≡ ([], record e { after_marker = e.after_marker ++ (c ∷ d) })
  unfolding feed
  feed_found q = ground arith

  feed_marker :
      (i : ℕ)
      → e.marker_found ≡ false
      → find intent_marker (e.pending ++ (c ∷ d)) ≡ some i
      → feed e (c ∷ d) ≡ release_to_marker e (e.pending ++ (c ∷ d)) i
  unfolding feed
  feed_marker i q h = ground arith

  feed_settled :
      e.marker_found ≡ false
      → find intent_marker (e.pending ++ (c ∷ d)) ≡ none
      → feed e (c ∷ d) ≡ release_settled e (e.pending ++ (c ∷ d))
  unfolding feed
  feed_settled q h = ground arith

still_waiting :
    (e : Extractor) (pending : Text) → (release_settled e pending).1.marker_found ≡ e.marker_found
still_waiting e pending = ground arith

Fed-of : (b : Bool) (t : Text) (e : Extractor) → e.marker_found ≡ b → FedAt b t e → Fed t e
Fed-of b t e q f = subst (λ x. FedAt x t e) (sym q) f

pub Fed-at : (b : Bool) (t : Text) (e : Extractor) → e.marker_found ≡ b → Fed t e → FedAt b t e
Fed-at b t e q f = subst (λ x. FedAt x t e) q f

feed-Fed : (t d : Text) (e : Extractor) → Fed t e → Fed (t ++ d) (feed e d).1
feed-Fed t [] e f = unfold feed in rw append-nil f
feed-Fed t (c ∷ d) e f = elim (Bool-cases e.marker_found) [
  | inl q ↦
      subst (λ (p : Text × Extractor). Fed (t ++ c ∷ d) p.1) (sym (feed_found e c d q))
        (Fed-of true _ _ q (Found-append t (c ∷ d) e (Fed-at true t e q f)))
  | inr q ↦
      let w = Fed-at false t e q f in
      elim (Option-cases (find intent_marker (e.pending ++ c ∷ d))) [
        | inl h ↦
            subst (λ (p : Text × Extractor). Fed (t ++ c ∷ d) p.1) (sym (feed_settled e c d q h))
              (Fed-of false _ _ (still_waiting e (e.pending ++ c ∷ d) ∙ q)
                (release_settled-Waiting t (c ∷ d) e w h))
        | inr (i, h) ↦
            subst (λ (p : Text × Extractor). Fed (t ++ c ∷ d) p.1) (sym (feed_marker e c d i q h))
              (release_to_marker-Found t (c ∷ d) e w i h)
      ]
]

-- What `feed` returns is what it adds to the released text.
released-feed : (e : Extractor) (d : Text) → e.released ++ (feed e d).0 ≡ (feed e d).1.released
unfolding feed
released-feed e [] = append-nil e.released
released-feed e (c ∷ d) = ground (arith, append-nil e.released)

pub feed_all-Fed :
    (t : Text) (ds : List Text) (e : Extractor) → Fed t e → Fed (t ++ concat ds) (feed_all e ds).1
unfolding feed_all
feed_all-Fed t [] e f = rw append-nil f
feed_all-Fed t (d ∷ ds) e f =
    subst (λ x. Fed x (feed_all (feed e d).1 ds).1) (append_assoc t d (concat ds))
      (feed_all-Fed (t ++ d) ds (feed e d).1 (feed-Fed t d e f))

pub released-feed_all :
    (ds : List Text) (e : Extractor)
    → e.released ++ concat (feed_all e ds).0 ≡ (feed_all e ds).1.released
unfolding feed_all
released-feed_all [] e = append-nil e.released
released-feed_all (d ∷ ds) e =
    sym (append_assoc e.released (feed e d).0 (concat (feed_all (feed e d).1 ds).0))
    ∙ ap (λ x. x ++ concat (feed_all (feed e d).1 ds).0) (released-feed e d)
    ∙ released-feed_all ds (feed e d).1
