-- ===== src/Computation/Reconciliation/Duplicates.antt =====
-- `_duplicate_identifiers`: what it means for an identifier to be among the duplicates.
use evidence_control_plane.Prelude.{
  ◌≡◌, refl, sym, ap, ◌∙◌, inl, inr, String, true, false, ◌&&◌, ◌||◌, Option, none, some, List, [],
  ◌∷◌, ◌++◌, arith, ltb, ◌==◌, string_eq, ==→eq, ==-refl, Bool-cases,
}
use evidence_control_plane.Prelude.Lists.{length}
use evidence_control_plane.Prelude.Sets.{
  contains, Distinct, contains-append, Distinct-snoc, other_element,
}
use evidence_control_plane.Prelude.Dict.{Dict, get_list, update_list}
use evidence_control_plane.Computation.Reconciliation.Indexes.{Indexes}
use evidence_control_plane.Computation.Reconciliation.Classify.{
  duplicate_key, add_to_group, group_by_digest, repeated_in_groups, duplicate_identifiers,
}

-- A group holds different identifiers, all seen before, and the group's digest is the key of each.
pub record IsGroup (key : String → Option String) (seen : List String) (digest : String)
    (ids : List String) : Type 0 where
  pub keyed : (i : String) → contains i ids ≡ true → key i ≡ some digest
  pub from_seen : (i : String) → contains i ids ≡ true → contains i seen ≡ true
  pub distinct : Distinct ids

abbrev pub AreGroups : (String → Option String) → List String → Dict String (List String) → Type 0
AreGroups key seen [] = Unit
AreGroups key seen ((digest, ids) ∷ groups) =
    IsGroup key seen digest ids × AreGroups key seen groups

module _ (key : String → Option String) (seen : List String) (identifier : String)
    (fresh : contains identifier seen ≡ false) where
  IsGroup-weaken :
      (digest : String) (ids : List String)
      → IsGroup key seen digest ids
      → IsGroup key (identifier ∷ seen) digest ids
  IsGroup-weaken digest ids h = record {
    keyed = h.keyed;
    from_seen = λ i e. ground (arith, h.from_seen i e);
    distinct = h.distinct;
  }

  AreGroups-weaken :
      (groups : Dict String (List String))
      → AreGroups key seen groups
      → AreGroups key (identifier ∷ seen) groups
  AreGroups-weaken [] h = tt
  AreGroups-weaken ((d, ids) ∷ groups) h = (IsGroup-weaken d ids h.0, AreGroups-weaken groups h.1)

  extend-IsGroup :
      (digest : String) (ids : List String)
      → key identifier ≡ some digest
      → IsGroup key seen digest ids
      → IsGroup key (identifier ∷ seen) digest (ids ++ identifier ∷ [])
  extend-IsGroup digest ids k h = record {
    keyed = λ i e. elim (Bool-cases (identifier == i)) [
      | inl same ↦ rw (← ==→eq identifier i same) k
      | inr other ↦ h.keyed i (ground (arith, contains-append i ids (identifier ∷ [])))
    ];
    from_seen = λ i e. ground (arith, contains-append i ids (identifier ∷ []), h.from_seen i);
    distinct =
        Distinct-snoc identifier ids h.distinct (ground (arith, h.from_seen identifier, fresh));
  }

  update_list-AreGroups :
      (digest : String) (groups : Dict String (List String))
      → key identifier ≡ some digest
      → AreGroups key seen groups
      → AreGroups key
          (identifier ∷ seen)
          (update_list digest (λ ids. ids ++ identifier ∷ []) groups)
  update_list-AreGroups digest [] k h = (
    extend-IsGroup digest [] k (record { keyed = λ i e. cc; from_seen = λ i e. cc; distinct = tt }),
    tt,
  )
  update_list-AreGroups digest ((d, ids) ∷ groups) k h = elim (Bool-cases (d == digest)) [
    | inl same ↦ rw same (
      extend-IsGroup d ids (k ∙ ap some (sym (==→eq d digest same))) h.0,
      AreGroups-weaken groups h.1,
    )
    | inr other ↦ rw other (IsGroup-weaken d ids h.0, update_list-AreGroups digest groups k h.1)
  ]

  add_to_group-AreGroups :
      (found : Option String) (groups : Dict String (List String))
      → key identifier ≡ found
      → AreGroups key seen groups
      → AreGroups key (identifier ∷ seen) (add_to_group found identifier groups)
  unfolding add_to_group
  add_to_group-AreGroups none groups k h = AreGroups-weaken groups h
  add_to_group-AreGroups (some digest) groups k h = update_list-AreGroups digest groups k h

-- no identifier of the list was seen before
abbrev Unseen : List String → List String → Type 0
Unseen seen identifiers = (i : String) → contains i identifiers ≡ true → contains i seen ≡ false

module _ (destination_system : String) (indexes : Indexes) where
  -- the digest of the identifier's only confirmation, at the population's destination
  abbrev pub key_of : String → Option String
  key_of identifier =
      duplicate_key destination_system (get_list identifier indexes.confirmations_by_destination)

  group_by_digest-AreGroups :
      (seen identifiers : List String) (groups : Dict String (List String))
      → Distinct identifiers
      → Unseen seen identifiers
      → AreGroups key_of seen groups
      → (all_seen : List String) × ((i : String)
          → contains i all_seen ≡ true
          → (contains i seen || contains i identifiers) ≡ true)
        × AreGroups key_of all_seen (group_by_digest destination_system indexes groups identifiers)
  unfolding group_by_digest
  group_by_digest-AreGroups seen [] groups d u h = (seen, λ i e. ground arith, h)
  group_by_digest-AreGroups seen (x ∷ xs) groups d u h =
      let (all_seen, within, ok_groups) =
        group_by_digest-AreGroups (x ∷ seen) xs (add_to_group (key_of x) x groups) d.1
          (λ i e. ground (arith, u i, d.0, e, string_eq.same_key_iff x i))
          (add_to_group-AreGroups key_of seen x (u x (ground (arith, ==-refl x))) (key_of x) groups
            refl h) in
      (all_seen, λ i e. ground (arith, within i e), ok_groups)

duplicate_in_groups :
    (key : String → Option String) (seen : List String) (groups : Dict String (List String))
    (identifier : String)
    → AreGroups key seen groups
    → contains identifier (repeated_in_groups groups) ≡ true
    → (other digest : String) × ((identifier == other) ≡ false)
      × (contains other seen ≡ true)
      × (key identifier ≡ some digest)
      × (key other ≡ some digest)
unfolding repeated_in_groups
duplicate_in_groups key seen [] identifier h e = cc
duplicate_in_groups key seen ((digest, ids) ∷ groups) identifier h e =
    elim (Bool-cases (ltb 1 (length ids) && contains identifier ids)) [
      | inl here ↦
          let (other, found, ne) =
            other_element identifier ids h.0.distinct (ground (arith, here)) in
          (
            other,
            digest,
            ne,
            h.0.from_seen other found,
            h.0.keyed identifier (ground (arith, here)),
            h.0.keyed other found,
          )
      | inr elsewhere ↦
          duplicate_in_groups key seen groups identifier h.1 (
            ground
              (arith, elsewhere, e, contains-append identifier ids (repeated_in_groups groups)))
    ]

-- An identifier among the duplicates has another identifier of the population beside it, and the
-- only confirmation of each, at the population's destination, has the same content digest.
pub duplicate_identifiers_lem :
    (identifiers : List String) (indexes : Indexes) (destination_system identifier : String)
    → Distinct identifiers
    → contains identifier (duplicate_identifiers identifiers indexes destination_system) ≡ true
    → (other digest : String) × ((identifier == other) ≡ false)
      × (contains other identifiers ≡ true)
      × (key_of destination_system indexes identifier ≡ some digest)
      × (key_of destination_system indexes other ≡ some digest)
unfolding duplicate_identifiers
duplicate_identifiers_lem identifiers indexes destination_system identifier d h =
    let (all_seen, within, groups) =
      group_by_digest-AreGroups destination_system indexes [] identifiers [] d (λ i e. refl) tt in
    let (other, digest, ne, found, k, ko) =
      duplicate_in_groups (key_of destination_system indexes) all_seen _ identifier groups h in
    (other, digest, ne, within other found, k, ko)
