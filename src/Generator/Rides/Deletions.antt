-- ===== src/Generator/Rides/Deletions.antt =====
-- To delete the rides that are done raises nothing.
use stream_pipeline.Prelude.Dict
use stream_pipeline.Prelude.Dict.{Dict, IsDict, Fresh}
use stream_pipeline.Prelude.{
  ◌≡◌, ◌≢◌, refl, sym, ap, ◌∙◌, String, Option, none, some, List, [], ◌∷◌, All, Returns, text_key,
  dec_text, if_pos, if_neg,
}
use stream_pipeline.Generator.Rides.{ActiveRide}
use stream_pipeline.Generator.Rides.Ticks.{delete_all}

module _ {F : Type 0} where
  abbrev pub Has : Dict String (ActiveRide F) → String → Type 0
  Has d id = (ride : ActiveRide F) × (Dict.get id d ≡ some ride)

  -- Keys of a dict, each at most once.
  abbrev pub Marks : List String → Dict String (ActiveRide F) → Type 0
  Marks [] d = Unit
  Marks (id ∷ ids) d = Has d id × All (λ j. id ≢ j) ids × Marks ids d

  Has-cons :
      (k : String) (v : ActiveRide F) (d : Dict String (ActiveRide F)) (j : String)
      → Has d j
      → Has ((k, v) ∷ d) j
  unfolding Dict.get
  Has-cons k v d j (x, e) = elim (dec_text k j) [
    | yes p ↦ (v, if_pos (dec_text k j) p _ _)
    | no p ↦ (x, if_neg (dec_text k j) p _ _ ∙ e)
  ]

  pub Has-head :
      (k : String) (v : ActiveRide F) (d : Dict String (ActiveRide F)) → Has ((k, v) ∷ d) k
  unfolding Dict.get
  Has-head k v d = (v, if_pos (dec_text k k) refl _ _)

  pub Marks-cons :
      (k : String) (v : ActiveRide F) (d : Dict String (ActiveRide F)) (ids : List String)
      → Marks ids d
      → Marks ids ((k, v) ∷ d)
  Marks-cons k v d [] m = tt
  Marks-cons k v d (j ∷ ids) (h, others, m) = (Has-cons k v d j h, others, Marks-cons k v d ids m)

  -- A key that the dict does not have is none of the marked ones.
  pub Fresh-Marks :
      (k : String) (d : Dict String (ActiveRide F)) (ids : List String)
      → Fresh k d
      → Marks ids d
      → All (λ j. k ≢ j) ids
  Fresh-Marks k d [] fresh m = tt
  Fresh-Marks k d (j ∷ ids) fresh ((x, e), others, m) = (
    λ p. none-ne-some (sym (Dict.get_of_Fresh k d fresh) ∙ (ap (λ i. Dict.get i d) p ∙ e)),
    Fresh-Marks k d ids fresh m,
  )
    where
      none-ne-some : {x : ActiveRide F} → ¬ (◌≡◌ {A = Option (ActiveRide F)} none (some x))
      none-ne-some h = cc

  Marks-pop :
      (k : String) (d : Dict String (ActiveRide F)) (ids : List String)
      → All (λ j. k ≢ j) ids
      → Marks ids d
      → Marks ids (Dict.pop k d)
  Marks-pop k d [] others m = tt
  Marks-pop k d (j ∷ ids) (ne, others) ((x, e), distinct, m) = (
    (x, Dict.get-pop k j d ∙ (if_neg (dec_text k j) ne _ _ ∙ e)),
    distinct,
    Marks-pop k d ids others m,
  )

  -- To delete marked keys raises nothing, and keeps what holds of all entries.
  pub delete_all-Returns :
      (P : String × ActiveRide F → Type 0) (ids : List String) (d : Dict String (ActiveRide F))
      → Marks ids d
      → IsDict d
      → All P d
      → Returns (λ d'. IsDict d' × All P d') (delete_all ids d)
  unfolding delete_all
  delete_all-Returns P [] d m unique all = (d, refl, (unique, all))
  delete_all-Returns P (id ∷ ids) d ((x, e), others, m) unique all =
      let (d', e', kept) =
        delete_all-Returns P ids (Dict.pop id d) (Marks-pop id d ids others m)
          (Dict.pop-IsDict id d unique) (Dict.All-pop P id d all) in
      rw (delete_all, e) (d', e', kept)
