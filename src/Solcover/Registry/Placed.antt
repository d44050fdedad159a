-- ===== src/Solcover/Registry/Placed.antt =====
-- Where the locations of a registered contract lie: in registered sources.
use ethier.Common.{
  ◌+◌, List, [], none, some, ◌≡◌, refl, ap, subst, ◌∙◌, Bytes, bytes_key, number_key, get_elem?,
  lookup, Outcome, ok, or_err, or_panic, ◌>>=◌, bind-ok, or_panic-ok, ok-injective, Option-cases,
  Bool-cases, nat_beq, if◌then◌else◌, inl, inr,
}
use ethier.Common.Int.{ℤ, pos, negsuc, to_int64}
use ethier.Golang.Atoi.{atoi}
use ethier.Solcover.Location.Laws.{bare}
use ethier.Solcover.Location.{
  Location, Node, MapError, MapperPackage, SourceFile, bad_s, bad_l, bad_f, bad_m, bad_offset,
  place, effective_file, location_from_node,
}

module _ {Mapper : Type 0} (offset : MapperPackage Mapper) where
  -- What `place` leaves alone.
  record Keeps (a b : Location) : Type 0 where
    file_idx : b.file_idx ≡ a.file_idx
    source : b.source ≡ a.source

  ok-Keeps :
      (a b c : Location) → ◌≡◌ {A = Outcome MapError Location} (ok b) (ok c) → Keeps a b → Keeps a c
  ok-Keeps a b c h k = subst (Keeps a) (ok-injective h) k

  place-Keeps :
      (mapper : Mapper) (s l : ℤ) (loc loc' : Location)
      → place offset mapper s l loc ≡ ok loc'
      → Keeps loc loc'
  unfolding place
  place-Keeps mapper (negsuc s) l loc loc' h =
      ok-Keeps loc loc loc' h (record { file_idx = refl; source = refl })
  place-Keeps mapper (pos s) (negsuc l) loc loc' h =
      ok-Keeps loc loc loc' h (record { file_idx = refl; source = refl })
  place-Keeps mapper (pos s) (pos l) loc loc' h = elim (Bool-cases (nat_beq l 0)) [
    | inl empty ↦
        let (e, _, done) =
          bind-ok (or_err bad_offset (offset.line_and_column mapper (to_int64 (s + l)))) _
            (rw (place, empty) at h) in
        ok-Keeps loc _ loc' done (record { file_idx = refl; source = refl })
    | inr long ↦
        let (b, _, h') =
          bind-ok (or_err bad_offset (offset.line_and_column mapper (pos s))) _
            (rw (place, long) at h) in
        let (e, _, done) =
          bind-ok (or_err bad_offset (offset.line_and_column mapper (to_int64 (s + l)))) _ h' in
        ok-Keeps loc _ loc' done (record { file_idx = refl; source = refl })
  ]

-- A source that is registered.
abbrev pub Registered : {Mapper : Type 0} → List (Bytes × SourceFile Mapper) → Bytes → Type 0
Registered {Mapper} sources f = (file : SourceFile Mapper) × (lookup sources f ≡ some file)

-- A location in the file that its index names, which is registered, or in no file.
pub record IsPlaced {Mapper : Type 0} (sources : List (Bytes × SourceFile Mapper))
    (source_list : List Bytes) (l : Location) : Type 0 where
  pub listed :
      (f : Bytes)
      → get_elem? source_list l.file_idx ≡ some f
      → (l.source ≡ f) × Registered sources f
  pub unlisted : get_elem? source_list l.file_idx ≡ none → l.source ≡ []

module _ {Mapper : Type 0} (offset : MapperPackage Mapper)
    (sources : List (Bytes × SourceFile Mapper)) (source_list : List Bytes) where
  in_file :
      (l : Location) (f : Bytes)
      → get_elem? source_list l.file_idx ≡ some f
      → l.source ≡ f
      → Registered sources f
      → IsPlaced sources source_list l
  in_file l f at same registered = record {
    listed =
        λ g at'. let is_f : f ≡ g = cc in (same ∙ is_f, subst (Registered sources) is_f registered);
    unlisted = λ none_. cc;
  }

  Keeps-IsPlaced :
      (loc l : Location) (f : Bytes)
      → Keeps offset loc l
      → get_elem? source_list loc.file_idx ≡ some f
      → loc.source ≡ f
      → Registered sources f
      → IsPlaced sources source_list l
  Keeps-IsPlaced loc l f keeps at same registered =
      in_file l f (ap (get_elem? source_list) keeps.file_idx ∙ at) (keeps.source ∙ same) registered

  in_source-IsPlaced :
      (s l0 : ℤ) (loc l : Location) (f : Bytes)
      → get_elem? source_list loc.file_idx ≡ some f
      → loc.source ≡ f
      → (or_panic {E = MapError} (lookup sources f) >>= λ file.
          if nat_beq (offset.len file.mapper) 0 then ok loc else place offset file.mapper s l0 loc)
        ≡ ok l
      → IsPlaced sources source_list l
  in_source-IsPlaced s l0 loc l f at same h =
      let (file, found, h') = bind-ok (or_panic {E = MapError} (lookup sources f)) _ h in
      let registered : Registered sources f = (file, or_panic-ok (lookup sources f) found) in
      elim (Bool-cases (nat_beq (offset.len file.mapper) 0)) [
        | inl empty ↦
            subst (IsPlaced sources source_list) (ok-injective (rw empty at h'))
              (in_file loc f at same registered)
        | inr full ↦
            Keeps-IsPlaced loc l f (place-Keeps offset file.mapper s l0 loc l (rw full at h')) at
              same registered
      ]

  pub location_from_node-IsPlaced :
      (node : Node) (l : Location)
      → location_from_node offset sources node source_list ≡ ok l
      → IsPlaced sources source_list l
  unfolding location_from_node
  location_from_node-IsPlaced node l h =
      let (start, _, h1) = bind-ok (or_err bad_s (atoi node.s)) _ h in
      let (length', _, h2) = bind-ok (or_err bad_l (atoi node.l)) _ h1 in
      let (file, _, h3) = bind-ok (or_err bad_f (atoi node.f)) _ h2 in
      let (depth, _, h4) = bind-ok (or_err bad_m (atoi node.m)) _ h3 in
      let idx = effective_file start length' file in
      elim (Option-cases (get_elem? source_list idx)) [
        | inl out ↦
            let same = ok-injective (rw out at h4) in
            subst (IsPlaced sources source_list) same
              (record { listed = λ f at. cc; unlisted = λ _. refl })
        | inr (f, at) ↦
            in_source-IsPlaced start length' (bare node start length' depth idx f) l f at refl
              (rw at at h4)
      ]
