-- ===== src/Solcover/Coverage/Counts/Visit.antt =====
-- What one step adds to the counts.
use native.Mathlib.Nat.{mod-mod, mod-add-mod}
use ethier.Common.{
  ℕ, ◌+◌, ◌<◌, ◌%◌, ◌^◌, Bool, true, false, ◌&&◌, List, [], ◌∷◌, ◌++◌, Option, none, some, ◌≡◌,
  refl, sym, ap, ap₂, subst, ◌∙◌, Bytes, bytes_key, number_key, nat_beq, nat_beq_iff, lookup,
  assign, lookup-assign, if◌then◌else◌, ◌==◌, Bool-cases, Option-cases, inl, inr, arith,
}
use ethier.Solcover.Location.{Location}
use ethier.Solcover.Coverage.{
  LineHits, Collector, set_hits, get_hits, count_line, has_no_line, visit,
}
use ethier.Solcover.Coverage.Counts.Lines.{
  entered, occurrences, last_of, entered-append, last_of-append, occurrences-append,
}

-- What one collector has counted since another, for the locations that were visited.
pub record Counted (ls : List Location) (k k' : Collector) : Type 0 where
  pub hits :
      (f : Bytes) (n : ℕ)
      → get_hits k'.line_hits f n % 2 ^ 64
        ≡ (get_hits k.line_hits f n + occurrences f n (entered k.last ls)) % 2 ^ 64
  pub bounded :
      (f : Bytes) (n : ℕ) → get_hits k.line_hits f n < 2 ^ 64 → get_hits k'.line_hits f n < 2 ^ 64
  pub last : k'.last ≡ last_of k.last ls

mod_sum :
    (x y z a b : ℕ)
    → y % 2 ^ 64 ≡ (x + a) % 2 ^ 64
    → z % 2 ^ 64 ≡ (y + b) % 2 ^ 64
    → z % 2 ^ 64 ≡ (x + (a + b)) % 2 ^ 64
mod_sum x y z a b h1 h2 =
    h2
    ∙ sym (mod-add-mod y (2 ^ 64) b)
    ∙ ap (λ t. (t + b) % 2 ^ 64) h1
    ∙ mod-add-mod (x + a) (2 ^ 64) b
    ∙ ap (λ t. t % 2 ^ 64) (omega arith)

pub Counted-append :
    {ls ms : List Location} {k k1 k2 : Collector}
    → Counted ls k k1
    → Counted ms k1 k2
    → Counted (ls ++ ms) k k2
Counted-append {ls} {ms} {k} {k1} {k2} a b = record {
  hits = λ f n.
      mod_sum (get_hits k.line_hits f n) (get_hits k1.line_hits f n) (get_hits k2.line_hits f n)
        (occurrences f n (entered k.last ls)) (occurrences f n (entered (last_of k.last ls) ms))
        (a.hits f n)
        (b.hits f n
          ∙ ap (λ q. (get_hits k1.line_hits f n + occurrences f n (entered q ms)) % 2 ^ 64) a.last)
      ∙ ap (λ o. (get_hits k.line_hits f n + o) % 2 ^ 64)
          (sym (occurrences-append f n (entered k.last ls) (entered (last_of k.last ls) ms))
            ∙ ap (occurrences f n) (sym (entered-append k.last ls ms)));
  bounded = λ f n h. b.bounded f n (a.bounded f n h);
  last = b.last ∙ ap (λ q. last_of q ms) a.last ∙ sym (last_of-append k.last ls ms);
}

get_hits-assign :
    (line_hits : LineHits) (file : Bytes) (lines : List (ℕ × ℕ)) (line v : ℕ) (f : Bytes) (n : ℕ)
    → lookup line_hits file ≡ some lines
    → get_hits (assign line_hits file (assign lines line v)) f n
      ≡ (if file == f && line == n then v else get_hits line_hits f n)
unfolding get_hits
get_hits-assign line_hits file lines line v f n known = elim (Bool-cases (file == f)) [
  | inl same ↦
      let e : file ≡ f = (bytes_key.same_iff file f).0 same in
      let here : lookup line_hits f ≡ some lines = ap (lookup line_hits) (sym e) ∙ known in
      elim (Bool-cases (line == n)) [
        | inl at ↦
            rw
              (
                get_hits,
                lookup-assign line_hits file (assign lines line v) f,
                same,
                lookup-assign lines line v n,
                at,
              )
              refl
        | inr off ↦
            rw
              (
                get_hits,
                lookup-assign line_hits file (assign lines line v) f,
                same,
                lookup-assign lines line v n,
                off,
                here,
              )
              refl
      ]
  | inr other ↦ rw (get_hits, lookup-assign line_hits file (assign lines line v) f, other) refl
]

-- A location on the line of the last one.
kept-Counted :
    (l : Location) (k : Collector)
    → (nat_beq l.file_idx k.last.file_idx && nat_beq l.line k.last.line) ≡ true
    → Counted (l ∷ []) k (record k { last = l })
unfolding entered occurrences last_of
kept-Counted l k same = record {
  hits = λ f n. rw same (ap (λ t. t % 2 ^ 64) {x = get_hits k.line_hits f n} (omega arith));
  bounded = λ f n h. h;
  last = refl;
}

-- A location on another line.
counted_line :
    (x y v : ℕ) (b : Bool)
    → y ≡ (if b then v else x)
    → (b ≡ true → v ≡ (x + 1) % 2 ^ 64)
    → (y % 2 ^ 64 ≡ (x + (if b then 1 else 0)) % 2 ^ 64) × (x < 2 ^ 64 → y < 2 ^ 64)
counted_line x y v true h next_ =
    let v_is = next_ refl in
    (ap (λ t. t % 2 ^ 64) (h ∙ v_is) ∙ mod-mod (x + 1) (2 ^ 64), λ lt. omega (arith, h, v_is))
counted_line x y v false h next_ = (ap (λ t. t % 2 ^ 64) (omega (arith, h)), λ lt. omega (arith, h))

set-Counted :
    (l : Location) (k : Collector) (lines : List (ℕ × ℕ))
    → lookup k.line_hits l.source ≡ some lines
    → (nat_beq l.file_idx k.last.file_idx && nat_beq l.line k.last.line) ≡ false
    → Counted (l ∷ []) k (record k {
      line_hits =
          assign k.line_hits l.source
            (assign lines l.line ((get_hits k.line_hits l.source l.line + 1) % 2 ^ 64));
      last = l;
    })
unfolding entered occurrences last_of
set-Counted l k lines known moved =
    let v = (get_hits k.line_hits l.source l.line + 1) % 2 ^ 64 in
    let after = assign k.line_hits l.source (assign lines l.line v) in
    let at = λ (f : Bytes) (n : ℕ).
      counted_line (get_hits k.line_hits f n) (get_hits after f n) v (l.source == f && l.line == n)
        (get_hits-assign k.line_hits l.source lines l.line v f n known)
        (λ h.
          let file : (l.source == f) ≡ true = ground (arith, h) in
          let line : (l.line == n) ≡ true = ground (arith, h) in
          ap₂ (λ g m. (get_hits k.line_hits g m + 1) % 2 ^ 64)
            ((bytes_key.same_iff l.source f).0 file) ((nat_beq_iff l.line n).0 line)) in
    record { hits = λ f n. rw moved (at f n).0; bounded = λ f n. (at f n).1; last = refl }

pub nothing-Counted : (k : Collector) → Counted [] k k
unfolding entered occurrences last_of
nothing-Counted k = record {
  hits = λ f n. ap (λ t. t % 2 ^ 64) {x = get_hits k.line_hits f n} (omega arith);
  bounded = λ f n h. h;
  last = refl;
}

count_line-Counted :
    (l : Location) (k k' : Collector) → count_line l k ≡ some k' → Counted (l ∷ []) k k'
unfolding count_line set_hits
count_line-Counted l k k' h =
    elim (Bool-cases (nat_beq l.file_idx k.last.file_idx && nat_beq l.line k.last.line)) [
      | inl same ↦ subst (Counted (l ∷ []) k) (same_some (rw same at h)) (kept-Counted l k same)
      | inr moved ↦ elim (Option-cases (lookup k.line_hits l.source)) [
        | inl unknown ↦ absurd (ground arith)
        | inr (lines, known) ↦
            subst (Counted (l ∷ []) k) (same_some (rw moved at (rw known at h)))
              (set-Counted l k lines known moved)
      ]
    ]
  where
    same_some : {a b : Collector} → ◌≡◌ {A = Option Collector} (some a) (some b) → a ≡ b
    same_some e = cc

-- The location, where it has a line.
abbrev pub with_line : Option Location → List Location
with_line none = []
with_line (some l) = if has_no_line l then [] else l ∷ []

pub visit-Counted :
    (found : Option Location) (k k' : Collector)
    → visit found k ≡ some k'
    → Counted (with_line found) k k'
unfolding visit
visit-Counted none k k' h = let e : k ≡ k' = cc in subst (Counted [] k) e (nothing-Counted k)
visit-Counted (some l) k k' h = elim (Bool-cases (has_no_line l)) [
  | inl none_ ↦
      let made : ◌≡◌ {A = Option Collector} (some k) (some k') = rw none_ at h in
      let e : k ≡ k' = cc in rw none_ (subst (Counted [] k) e (nothing-Counted k))
  | inr lined ↦ rw lined (count_line-Counted l k k' (rw lined at h))
]
