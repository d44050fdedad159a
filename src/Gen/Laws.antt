-- ===== src/Gen/Laws.antt =====
-- Where the search for the base path ends, and what is read of the sources.
use ethier.Common.{
  ℕ, zero, suc, ◌+◌, ◌<◌, Bool, List, [], ◌∷◌, none, some, ◌≡◌, ◌≢◌, refl, sym, ap, subst, ◌∙◌,
  Bytes, codes, drop, length, get_elem?, ltb, ok, ok-injective, Outcome-cases, inl, inr, arith,
}
use ethier.Gen.{Path_, parent, Stat, present, missing, unreadable, find_base}
use ethier.Gen.Sources.{Read, contents, absent, failed, Packages, find_source, read_sources}

-- go.mod in the directory that lies `k` levels above.
abbrev pub go_mod : (Path_ → Stat) → Path_ → ℕ → Stat
go_mod stat pwd k = stat (codes "go.mod" ∷ drop k pwd)

drop-parent : (k : ℕ) (pwd : Path_) → drop k (parent pwd) ≡ drop (suc k) pwd
unfolding parent
drop-parent zero [] = refl
drop-parent (suc k) [] = refl
drop-parent k (name ∷ pwd) = refl

find_base_missing :
    (stat : Path_ → Stat) (fuel : ℕ) (pwd : Path_)
    → go_mod stat pwd 0 ≡ missing
    → find_base stat (suc fuel) pwd ≡ find_base stat fuel (parent pwd)
unfolding find_base
find_base_missing stat fuel pwd h =
    let h' : stat (codes "go.mod" ∷ pwd) ≡ missing = h in rw (find_base, h')

find_base_here :
    (stat : Path_ → Stat) (fuel : ℕ) (pwd : Path_)
    → go_mod stat pwd 0 ≢ missing
    → find_base stat (suc fuel) pwd ≡ some pwd
unfolding find_base
find_base_here stat fuel pwd h = here (stat (codes "go.mod" ∷ pwd)) h
  where
    here :
        (s : Stat)
        → s ≢ missing
        → (elim s [ missing ↦ find_base stat fuel (parent pwd) | _ ↦ some pwd ]) ≡ some pwd
    here present n = refl
    here unreadable n = refl
    here missing n = absurd (n refl)

-- Where some directory, from the working directory up, has a go.mod that is there or cannot be
-- looked at, the search ends within one round more than there are levels to the nearest such
-- directory, and that one is the base path.
pub find_base_nearest :
    (stat : Path_ → Stat) (fuel k : ℕ) (pwd : Path_)
    → k < fuel
    → ((j : ℕ) → j < k → go_mod stat pwd j ≡ missing)
    → go_mod stat pwd k ≢ missing
    → find_base stat fuel pwd ≡ some (drop k pwd)
find_base_nearest stat zero k pwd h below here = absurd (omega arith)
find_base_nearest stat (suc fuel) zero pwd h below here = find_base_here stat fuel pwd here
find_base_nearest stat (suc fuel) (suc k) pwd h below here =
    find_base_missing stat fuel pwd (below 0 (omega arith))
    ∙ find_base_nearest stat fuel k (parent pwd) (omega arith)
        (λ j lt. at_parent j ∙ below (suc j) (omega arith)) (λ e. here (sym (at_parent k) ∙ e))
    ∙ ap some (drop-parent k pwd)
  where
    at_parent : (j : ℕ) → go_mod stat (parent pwd) j ≡ go_mod stat pwd (suc j)
    at_parent j = ap (λ d. stat (codes "go.mod" ∷ d)) (drop-parent j pwd)

-- Where no directory up to the root has a go.mod, the search never ends: no number of rounds is
-- enough.
pub find_base_endless :
    (stat : Path_ → Stat) (pwd : Path_)
    → ((j : ℕ) → go_mod stat pwd j ≡ missing)
    → (fuel : ℕ) → find_base stat fuel pwd ≡ none
unfolding find_base
find_base_endless stat pwd h zero = refl
find_base_endless stat pwd h (suc fuel) =
    find_base_missing stat fuel pwd (h 0)
    ∙ find_base_endless stat (parent pwd)
        (λ j. ap (λ d. stat (codes "go.mod" ∷ d)) (drop-parent j pwd) ∙ h (suc j)) fuel

module _ {Ast : Type 0} (pkgs : Packages Ast) where
  -- A source as it lies in the first of the paths that has it.
  pub record IsLocated (paths : List Bytes) (src buf : Bytes) (k : ℕ) : Type 0 where
    pub path : Bytes
    pub at_path : get_elem? paths k ≡ some path
    pub found : pkgs.read_file (pkgs.join path src) ≡ contents buf
    pub first :
        (j : ℕ) (p : Bytes)
        → j < k
        → get_elem? paths j ≡ some p
        → pkgs.read_file (pkgs.join p src) ≡ absent

  IsLocated-cons :
      {paths : List Bytes} (p : Bytes) {src buf : Bytes} {k : ℕ}
      → pkgs.read_file (pkgs.join p src) ≡ absent
      → IsLocated paths src buf k
      → IsLocated (p ∷ paths) src buf (suc k)
  IsLocated-cons {paths} p {src} {buf} {k} gone located = record {
    path = located.path;
    at_path = located.at_path;
    found = located.found;
    first = first_;
  }
    where
      first_ :
          (j : ℕ) (q : Bytes)
          → j < suc k
          → get_elem? (p ∷ paths) j ≡ some q
          → pkgs.read_file (pkgs.join q src) ≡ absent
      first_ zero q h e = let same : p ≡ q = cc in rw (← same) gone
      first_ (suc j) q h e = located.first j q (omega arith) e

  find_source-IsLocated :
      (paths : List Bytes) (i : ℕ) (src : Bytes) {r : Bytes × Bool}
      → find_source pkgs paths i src ≡ ok r
      → (k : ℕ) × IsLocated paths src r.0 k × (r.1 ≡ ltb 0 (i + k))
  unfolding find_source
  find_source-IsLocated [] i src h = absurd (cc)
  find_source-IsLocated (p ∷ paths) i src {r} h =
      go (pkgs.read_file (pkgs.join p src)) refl (λ e. find_source-IsLocated paths (i + 1) src e)
    where
      go :
          (read : Read)
          → pkgs.read_file (pkgs.join p src) ≡ read
          → (find_source pkgs paths (i + 1) src ≡ ok r
              → (k : ℕ) × IsLocated paths src r.0 k × (r.1 ≡ ltb 0 (i + 1 + k)))
          → (k : ℕ) × IsLocated (p ∷ paths) src r.0 k × (r.1 ≡ ltb 0 (i + k))
      go absent e later =
          let (k, located, flag) = later (rw (find_source, e) at h) in
          (suc k, IsLocated-cons p e located, flag ∙ ap (ltb 0) (omega arith))
      go failed e later = absurd (ground arith)
      go (contents buf) e later =
          let same = ok-injective (rw (find_source, e) at h) in
          (
            0,
            record {
              path = p;
              at_path = refl;
              found = e ∙ ap contents (ap (λ q. q.0) same);
              first = λ j q lt at. absurd (omega arith);
            },
            sym (ap (λ q. q.1) same) ∙ ap (ltb 0) (omega arith),
          )

  with_head :
      (paths source_list : List Bytes) (more : List Bytes × List Bool) (found : Bytes × Bool)
      (s : Bytes) (k : ℕ)
      → IsLocated paths s found.0 k
      → found.1 ≡ ltb 0 (0 + k)
      → ((i : ℕ) (src : Bytes)
          → get_elem? source_list i ≡ some src
          → (buf : Bytes) × (k : ℕ) × (get_elem? more.0 i ≡ some buf)
            × (get_elem? more.1 i ≡ some (ltb 0 k))
            × IsLocated paths src buf k)
      → (i : ℕ) (src : Bytes) → get_elem? (s ∷ source_list) i ≡ some src
      → (buf : Bytes) × (k : ℕ) × (get_elem? (found.0 ∷ more.0) i ≡ some buf)
        × (get_elem? (found.1 ∷ more.1) i ≡ some (ltb 0 k))
        × IsLocated paths src buf k
  with_head paths source_list more found s k located mark each zero src h =
      let same : s ≡ src = cc in
      (
        found.0,
        k,
        refl,
        ap some (mark ∙ ap (ltb 0) (omega arith)),
        subst (λ x. IsLocated paths x found.0 k) same located,
      )
  with_head paths source_list more found s k located mark each (suc i) src h = each i src h

  -- When the sources can be read: every text comes from the first of the paths that has the file,
  -- and is marked as external where that is not the very first path; there are as many texts and
  -- marks as sources.
  pub read_sources-IsLocated :
      (paths source_list : List Bytes) {r : List Bytes × List Bool}
      → read_sources pkgs paths source_list ≡ ok r
      → (length r.0 ≡ length source_list)
        × (length r.1 ≡ length source_list)
        × ((i : ℕ) (src : Bytes)
            → get_elem? source_list i ≡ some src
            → (buf : Bytes) × (k : ℕ) × (get_elem? r.0 i ≡ some buf)
              × (get_elem? r.1 i ≡ some (ltb 0 k))
              × IsLocated paths src buf k)
  unfolding read_sources
  read_sources-IsLocated paths [] {r} h =
      let same = ok-injective h in
      (sym (ap (λ q. length q.0) same), sym (ap (λ q. length q.1) same), λ i src at. absurd (cc))
  read_sources-IsLocated paths (s ∷ source_list) {r} h =
      elim (Outcome-cases (find_source pkgs paths 0 s)) [
        | inr (inl (e, fails)) ↦ absurd (ground arith)
        | inr (inr fails) ↦ absurd (ground arith)
        | inl (found, finds) ↦ elim (Outcome-cases (read_sources pkgs paths source_list)) [
          | inr (inl (e, fails)) ↦ absurd (ground arith)
          | inr (inr fails) ↦ absurd (ground arith)
          | inl (more, reads) ↦
              let (texts, marks, each) = read_sources-IsLocated paths source_list reads in
              let (k, located, mark) = find_source-IsLocated paths 0 s finds in
              let same = ok-injective (rw (read_sources, finds, reads) at h) in
              subst
                (λ q.
                  (length q.0 ≡ suc (length source_list))
                  × (length q.1 ≡ suc (length source_list))
                  × ((i : ℕ) (src : Bytes)
                      → get_elem? (s ∷ source_list) i ≡ some src
                      → (buf : Bytes) × (k : ℕ) × (get_elem? q.0 i ≡ some buf)
                        × (get_elem? q.1 i ≡ some (ltb 0 k))
                        × IsLocated paths src buf k))
                same
                (
                  ap suc texts,
                  ap suc marks,
                  with_head paths source_list more found s k located mark each,
                )
        ]
      ]
