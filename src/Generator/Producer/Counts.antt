-- ===== src/Generator/Producer/Counts.antt =====
-- Counts of messages by a test, and the lines of a manifest.
use stream_pipeline.Prelude.Dict
use stream_pipeline.Prelude.{
  ℕ, ◌+◌, ◌≡◌, refl, sym, ap, ◌∙◌, inl, inr, String, Bool, true, false, not, Bool-cases, Option,
  none, some, some-injective, List, [], ◌∷◌, ◌++◌, map, append_assoc, append-nil, map-append,
  select, select-append, length, length-append, get_or, str_eq, eq_iff, dec_text, text_key, if_pos,
  if_neg, arith, if◌then◌else◌,
}
use stream_pipeline.Generator.Producer.{Flight, bump, line_of, noted}

abbrev pub acks : List (Flight × Bool) → List Flight
acks reported = map (λ x. x.0) (select (λ x. x.1) reported)

abbrev pub nacks : List (Flight × Bool) → List Flight
nacks reported = map (λ x. x.0) (select (λ x. not x.1) reported)

-- How many messages satisfy a test.
abbrev pub count_by : (Flight → Bool) → List Flight → ℕ
count_by p fs = length (select p fs)

abbrev pub of_topic : String → Flight → Bool
of_topic topic f = str_eq f.topic topic

-- The line for an acknowledged message: of one with a stable identifier that is not corrupt.
abbrev pub owed : String → Option String → Bool → List (String × String)
owed topic (some id) false = (topic, id) ∷ []
owed topic (some id) true = []
owed topic none corrupt = []

line_of-owed :
    (f : Flight) (id : Option String) (corrupt : Bool)
    → line_of f id corrupt ≡ owed f.topic id corrupt
line_of-owed f none corrupt = refl
line_of-owed f (some id) true = refl
line_of-owed f (some id) false = refl

-- The lines of a manifest for acknowledged messages, in the order of their callbacks.
abbrev pub lines_of : List Flight → List (String × String)
lines_of [] = []
lines_of (f ∷ fs) = owed f.topic f.stable_id f.corrupt ++ lines_of fs

abbrev pub counter_of : Dict.Dict String ℕ → String → ℕ
counter_of counter topic = get_or (Dict.get topic counter) 0

add_zero_sym : (n : ℕ) → n ≡ n + 0
add_zero_sym n = omega arith

pub counter_of-bump :
    (k j : String) (counter : Dict.Dict String ℕ)
    → counter_of (bump k counter) j ≡ counter_of counter j + (if str_eq k j then 1 else 0)
counter_of-bump k j counter = elim (dec_text k j) [
  | yes e ↦ rw ((eq_iff k j).1 e) (
      ap (λ o. get_or o 0) (Dict.get-put k j _ counter ∙ if_pos (dec_text k j) e _ _)
      ∙ ap (λ i. counter_of counter i + 1) e)
  | no ne ↦ elim (Bool-cases (str_eq k j)) [
    | inl b ↦ absurd (ne ((eq_iff k j).0 b))
    | inr b ↦ rw b (
        ap (λ o. get_or o 0) (Dict.get-put k j _ counter ∙ if_neg (dec_text k j) ne _ _)
        ∙ add_zero_sym (counter_of counter j))
  ]
]

count_by-append :
    (p : Flight → Bool) (xs ys : List Flight)
    → count_by p (xs ++ ys) ≡ count_by p xs + count_by p ys
count_by-append p xs ys =
    ap length (select-append p xs ys) ∙ length-append (select p xs) (select p ys)

acks-append : (xs ys : List (Flight × Bool)) → acks (xs ++ ys) ≡ acks xs ++ acks ys
acks-append xs ys =
    ap (map (λ (x : Flight × Bool). x.0)) (select-append (λ (x : Flight × Bool). x.1) xs ys)
    ∙ map-append _ (select (λ x. x.1) xs) (select (λ x. x.1) ys)

nacks-append : (xs ys : List (Flight × Bool)) → nacks (xs ++ ys) ≡ nacks xs ++ nacks ys
nacks-append xs ys =
    ap (map (λ (x : Flight × Bool). x.0)) (select-append (λ (x : Flight × Bool). not x.1) xs ys)
    ∙ map-append _ (select (λ x. not x.1) xs) (select (λ x. not x.1) ys)

lines_of-append : (xs ys : List Flight) → lines_of (xs ++ ys) ≡ lines_of xs ++ lines_of ys
lines_of-append [] ys = refl
lines_of-append (f ∷ xs) ys =
    ap (◌++◌ (owed f.topic f.stable_id f.corrupt)) (lines_of-append xs ys)
    ∙ sym (append_assoc (owed f.topic f.stable_id f.corrupt) (lines_of xs) (lines_of ys))

count_by-one : (p : Flight → Bool) (f : Flight) → count_by p (f ∷ []) ≡ (if p f then 1 else 0)
unfolding select
count_by-one p f = ground arith

pub count_by-snoc :
    (p : Flight → Bool) (fs : List Flight) (f : Flight)
    → count_by p (fs ++ f ∷ []) ≡ count_by p fs + (if p f then 1 else 0)
count_by-snoc p fs f =
    count_by-append p fs (f ∷ []) ∙ ap (λ n. count_by p fs + n) (count_by-one p f)

pub count_by-middle :
    (p : Flight → Bool) (before after : List Flight) (f : Flight)
    → count_by p (before ++ f ∷ after) ≡ count_by p (before ++ after) + (if p f then 1 else 0)
unfolding select
count_by-middle p before after f = omega (
  arith,
  count_by-append p before (f ∷ after),
  count_by-append p before after,
  count_by-append p (f ∷ []) after,
  count_by-one p f,
)

-- A report joins the acknowledged or the failed messages.
pub acks-snoc :
    (r : List (Flight × Bool)) (f : Flight)
    → (acks (r ++ (f, true) ∷ []) ≡ acks r ++ f ∷ [])
      × (acks (r ++ (f, false) ∷ []) ≡ acks r)
      × (nacks (r ++ (f, true) ∷ []) ≡ nacks r)
      × (nacks (r ++ (f, false) ∷ []) ≡ nacks r ++ f ∷ [])
unfolding select
acks-snoc r f = (
  acks-append r ((f, true) ∷ []),
  acks-append r ((f, false) ∷ []) ∙ append-nil (acks r),
  nacks-append r ((f, true) ∷ []) ∙ append-nil (nacks r),
  nacks-append r ((f, false) ∷ []),
)

pub noted-lines_of :
    (f : Flight) (manifest : Option (List (String × String))) (acked : List Flight)
    → ((lines : List (String × String)) → manifest ≡ some lines → lines ≡ lines_of acked)
    → (lines : List (String × String)) → noted f manifest ≡ some lines
    → lines ≡ lines_of (acked ++ f ∷ [])
noted-lines_of f none acked h lines e = cc
noted-lines_of f (some old) acked h lines e =
    some-injective (sym e)
    ∙ (ap (λ xs. xs ++ line_of f f.stable_id f.corrupt) (h old refl)
        ∙ (ap (◌++◌ (lines_of acked)) (line_of-owed f f.stable_id f.corrupt ∙ sym (append-nil _))
            ∙ sym (lines_of-append acked (f ∷ []))))
