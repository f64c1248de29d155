-- ===== src/Decode/Topics.antt =====
-- Which topics of an event are decoded, and the event data that its two maps make.
use seth.Prelude.{
  suc, true, false, none, some, List, [], ◌∷◌, ◌++◌, length, ◌≡◌, refl, arith, All, append_assoc,
  length-append, ◌≤◌, get_elem?-middle,
}
use seth.Prelude.Text.{Text, text_dec}
use seth.Prelude.Errors.{ok}
use seth.Prelude.Map.{Map, lookup, insert, Distinct, lookup-insert, insert-Distinct}
use seth.Decode.{Argument, indexed_topics, merge, decoded_log_from_maps}

module _ {Kind : Type 0} where
  -- from the place after `pre` on
  first_from :
      (pre firsts others : List (Argument Kind)) (topics : List Text)
      → All (λ a. a.indexed ≡ true) firsts
      → length topics ≡ length firsts
      → indexed_topics (pre ++ (firsts ++ others)) (length pre) topics ≡ ok (firsts, topics)
  unfolding indexed_topics
  first_from pre [] others [] h e = refl
  first_from pre [] others (t ∷ ts) h e = absurd (omega (arith, e))
  first_from pre (a ∷ firsts) others [] h e = absurd (omega (arith, e))
  first_from pre (a ∷ firsts) others (t ∷ ts) h e =
      let rest = first_from (pre ++ a ∷ []) firsts others ts h.1 (omega (arith, e)) in
      let moved : indexed_topics (pre ++ a ∷ (firsts ++ others)) (suc (length pre)) ts
          ≡ ok (firsts, ts) =
        ground
          (arith, rest, append_assoc pre (a ∷ []) (firsts ++ others), length-append pre (a ∷ [])) in
      rw (get_elem?-middle pre a (firsts ++ others), moved, h.0) refl

  -- When the indexed inputs of an event stand before the others and there is a topic for each, the
  -- topics decoded are those inputs with those topics, in order.
  pub indexed_topics_first :
      (firsts others : List (Argument Kind)) (topics : List Text)
      → All (λ a. a.indexed ≡ true) firsts
      → length topics ≡ length firsts
      → indexed_topics (firsts ++ others) 0 topics ≡ ok (firsts, topics)
  indexed_topics_first = first_from []

  lost_from :
      (pre plain indexed : List (Argument Kind)) (topics : List Text)
      → All (λ a. a.indexed ≡ false) plain
      → length topics ≤ length plain
      → indexed_topics (pre ++ (plain ++ indexed)) (length pre) topics ≡ ok ([], [])
  unfolding indexed_topics
  lost_from pre plain indexed [] h e = refl
  lost_from pre [] indexed (t ∷ ts) h e = absurd (omega (arith, e))
  lost_from pre (a ∷ plain) indexed (t ∷ ts) h e =
      let rest = lost_from (pre ++ a ∷ []) plain indexed ts h.1 (omega (arith, e)) in
      let moved : indexed_topics (pre ++ a ∷ (plain ++ indexed)) (suc (length pre)) ts
          ≡ ok ([], []) =
        ground
          (arith, rest, append_assoc pre (a ∷ []) (plain ++ indexed), length-append pre (a ∷ [])) in
      rw (get_elem?-middle pre a (plain ++ indexed), moved, h.0) refl

  -- When inputs that are not indexed stand first, as many topics as there are of them are lost: the
  -- event is decoded without any of its indexed inputs.
  pub indexed_topics_lost :
      (plain indexed : List (Argument Kind)) (topics : List Text)
      → All (λ a. a.indexed ≡ false) plain
      → length topics ≤ length plain
      → indexed_topics (plain ++ indexed) 0 topics ≡ ok ([], [])
  indexed_topics_lost = lost_from []

module _ {V : Type 0} where
  pub merge-Distinct : (m new : Map Text V) → Distinct text_dec m → Distinct text_dec (merge m new)
  unfolding merge
  merge-Distinct m [] d = d
  merge-Distinct m ((k, v) ∷ new) d =
      merge-Distinct (insert text_dec k v m) new (insert-Distinct text_dec k v m d)

  -- The entries of the new map win.
  pub lookup-merge :
      (k : Text) (m new : Map Text V)
      → Distinct text_dec new
      → lookup text_dec k (merge m new)
        ≡ (elim (lookup text_dec k new) [ none ↦ lookup text_dec k m | some v ↦ some v ])
  unfolding merge lookup
  lookup-merge k m [] d = refl
  lookup-merge k m ((j, v) ∷ new) d =
      ground (arith, lookup-merge k (insert text_dec j v m) new d.1, lookup-insert text_dec j k v m)

  -- The event data of a log has under each name the value that the topics have for it, or else the one
  -- that the data has, and nothing more.
  pub lookup-decoded_log_from_maps :
      (k : Text) (events_map topics_map : Map Text V)
      → Distinct text_dec events_map
      → Distinct text_dec topics_map
      → lookup text_dec k (decoded_log_from_maps events_map topics_map)
        ≡ (elim (lookup text_dec k topics_map) [
          | none ↦ lookup text_dec k events_map
          | some v ↦ some v
        ])
  unfolding decoded_log_from_maps lookup
  lookup-decoded_log_from_maps k events_map topics_map d e =
      let first = merge [] events_map in
      let both = merge first topics_map in
      let d1 = merge-Distinct [] events_map tt in
      ground (
        arith,
        lookup-merge k [] both (merge-Distinct first topics_map d1),
        lookup-merge k first topics_map e,
        lookup-merge k [] events_map d,
      )
