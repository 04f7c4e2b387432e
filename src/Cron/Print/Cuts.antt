-- ===== src/Cron/Print/Cuts.antt =====
-- Texts put together with separators, and how they are taken apart.
use netbox_conductor.Base.{
  ℕ, true, false, ◌≡◌, ◌≢◌, refl, sym, ap, ◌∙◌, List, [], ◌∷◌, ◌++◌, ◌==◌, All, arith,
}
use netbox_conductor.Cron.{Text, cut, split, is_space, fields, fields_from, flush}

-- The character is nowhere in the text.
abbrev pub Lacks : ℕ → Text → Type 0
Lacks sep = All (λ c. (c == sep) ≡ false)

pub cut-found : (sep : ℕ) (s t : Text) → Lacks sep s → cut sep (s ++ sep ∷ t) ≡ (s, t, true)
unfolding cut
cut-found sep [] t l = ground arith
cut-found sep (c ∷ s) t l = rw (l.0, cut-found sep s t l.1) refl

pub cut-missing : (sep : ℕ) (s : Text) → Lacks sep s → cut sep s ≡ (s, [], false)
unfolding cut
cut-missing sep [] l = refl
cut-missing sep (c ∷ s) l = rw (l.0, cut-missing sep s l.1) refl

abbrev pub join : ℕ → Text → List Text → Text
join sep s [] = s
join sep s (t ∷ ts) = s ++ sep ∷ join sep t ts

split-missing : (sep : ℕ) (s : Text) → Lacks sep s → split sep s ≡ s ∷ []
unfolding split
split-missing sep [] l = refl
split-missing sep (c ∷ s) l = rw (l.0, split-missing sep s l.1) refl

split-found : (sep : ℕ) (s t : Text) → Lacks sep s → split sep (s ++ sep ∷ t) ≡ s ∷ split sep t
unfolding split
split-found sep [] t l = ground arith
split-found sep (c ∷ s) t l = rw (l.0, split-found sep s t l.1) refl

-- Splitting undoes joining.
pub split-join :
    (sep : ℕ) (s : Text) (ts : List Text)
    → Lacks sep s
    → All (Lacks sep) ts
    → split sep (join sep s ts) ≡ s ∷ ts
split-join sep s [] l a = split-missing sep s l
split-join sep s (t ∷ ts) l a =
    split-found sep s (join sep t ts) l ∙ ap (λ r. s ∷ r) (split-join sep t ts a.0 a.1)

-- A text with no space in it.
abbrev pub IsWord : Text → Type 0
IsWord = All (λ c. is_space c ≡ false)

append_assoc : (r s t : Text) → (r ++ s) ++ t ≡ r ++ (s ++ t)
append_assoc [] s t = refl
append_assoc (c ∷ r) s t = ap (λ u. c ∷ u) (append_assoc r s t)

append_nil : (s : Text) → s ++ [] ≡ s
append_nil [] = refl
append_nil (c ∷ s) = ap (λ u. c ∷ u) (append_nil s)

fields_from-word : (cur s : Text) → IsWord s → fields_from cur s ≡ flush (cur ++ s) []
unfolding fields_from
fields_from-word cur [] w = ap (λ u. flush u []) (sym (append_nil cur))
fields_from-word cur (c ∷ s) w =
    rw (w.0, fields_from)
      (fields_from-word (cur ++ c ∷ []) s w.1 ∙ ap (λ u. flush u []) (append_assoc cur (c ∷ []) s))

fields_from-space :
    (cur s t : Text)
    → IsWord s
    → fields_from cur (s ++ 32 ∷ t) ≡ flush (cur ++ s) (fields_from [] t)
unfolding fields_from is_space
fields_from-space cur [] t w = ap (λ u. flush u (fields_from [] t)) (sym (append_nil cur))
fields_from-space cur (c ∷ s) t w =
    rw (w.0, fields_from)
      (fields_from-space (cur ++ c ∷ []) s t w.1
        ∙ ap (λ u. flush u (fields_from [] t)) (append_assoc cur (c ∷ []) s))

flush-nonempty : (s : Text) (r : List Text) → s ≢ [] → flush s r ≡ s ∷ r
flush-nonempty [] r n = absurd (n refl)
flush-nonempty (c ∷ s) r n = refl

-- The fields of words that are joined by spaces are the words.
fields-join :
    (s : Text) (ts : List Text)
    → IsWord s
    → s ≢ []
    → All (λ t. IsWord t × (t ≢ [])) ts
    → fields_from [] (join 32 s ts) ≡ s ∷ ts
fields-join s [] w n a = fields_from-word [] s w ∙ flush-nonempty s [] n
fields-join s (t ∷ ts) w n a =
    fields_from-space [] s (join 32 t ts) w
    ∙ flush-nonempty s (fields_from [] (join 32 t ts)) n
    ∙ ap (λ r. s ∷ r) (fields-join t ts a.0.0 a.0.1 a.1)

pub fields_lem :
    (s : Text) (ts : List Text)
    → IsWord s
    → s ≢ []
    → All (λ t. IsWord t × (t ≢ [])) ts
    → fields (join 32 s ts) ≡ s ∷ ts
unfolding fields
fields_lem s ts w n a = fields-join s ts w n a
