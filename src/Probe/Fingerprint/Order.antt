-- ===== src/Probe/Fingerprint/Order.antt =====
-- JA4 and the order in which a client lists its cipher suites and extensions.
use mathlib.Core.List.{Perm, Permᴰ, Perm-prop}
use mathlib.Core.List.Perm
use mathlib.Core.Logic.{∥∥₁_elim}
use native.Mathlib.Nat.{ℕ_set}
use netsee.Prelude.{
  Bool, Bool-cases, List, [], arith, if◌then◌else◌, inl, inr, refl, sym, ℕ, ◌+◌, ◌==◌, ◌||◌, ◌∙◌,
  ◌∷◌, ◌≡◌,
}
use netsee.Prelude.Sort.{sort_strings, sort_strings-eq_of_Perm, sort_strings-ne-nil}
use netsee.Prelude.Text.{Bytes}
use netsee.Probe.Fingerprint.{
  Digests, cipher_texts, ciphers_hex_sorted, count_from, count_non_grease, extension_texts,
  hash_extension_texts, hex4, is_grease, ja4, ja4_extension_hash,
}
use netsee.Probe.Hello.{ClientHello, ext_alpn, ext_sni}

-- A loop that passes over some values and writes a text for each of the others.
module _ (skip : ℕ → Bool) (texts : List ℕ → List Bytes) where
  abbrev IsLoop : Type 0
  IsLoop =
      (texts [] ≡ [])
      × ((v : ℕ) (vals : List ℕ)
          → texts (v ∷ vals) ≡ (if skip v then texts vals else hex4 v ∷ texts vals))

  module _ (loop : IsLoop) where
    loop-cons :
        (v : ℕ) (us vs : List ℕ)
        → Perm (texts us) (texts vs)
        → Perm (texts (v ∷ us)) (texts (v ∷ vs))
    loop-cons v us vs p =
        rw (loop.1 v us, loop.1 v vs)
          (elim (Bool-cases (skip v)) [ inl s ↦ rw s p | inr n ↦ rw n (Perm.cons (hex4 v) p) ])

    loop-swap : (a b : ℕ) (l : List ℕ) → Perm (texts (a ∷ b ∷ l)) (texts (b ∷ a ∷ l))
    loop-swap a b l =
        rw (loop.1 a (b ∷ l), loop.1 b (a ∷ l), loop.1 b l, loop.1 a l)
          (elim (Bool-cases (skip a)) [
            | inl s ↦ rw s (Perm.refl _)
            | inr n ↦ elim (Bool-cases (skip b)) [
              | inl s ↦ rw (n, s) (Perm.refl _)
              | inr m ↦ rw (n, m) (Perm.swap (hex4 b) (hex4 a) (texts l))
            ]
          ])

    loop-Permᴰ : {us vs : List ℕ} → Permᴰ us vs → Perm (texts us) (texts vs)
    loop-Permᴰ Permᴰ.nil = Perm.refl (texts [])
    loop-Permᴰ (Permᴰ.cons {b = b} {l₁ = us} {l₂ = vs} e p) =
        rw e (loop-cons b us vs (loop-Permᴰ p))
    loop-Permᴰ (Permᴰ.swap {a} {b} {l = l} e f) = rw (← e, ← f) (loop-swap a b l)
    loop-Permᴰ (Permᴰ.trans p q) = Perm.trans (loop-Permᴰ p) (loop-Permᴰ q)

    loop-Perm : {us vs : List ℕ} → Perm us vs → Perm (texts us) (texts vs)
    loop-Perm p = ∥∥₁_elim p Perm-prop loop-Permᴰ

cipher_texts-Perm : {us vs : List ℕ} → Perm us vs → Perm (cipher_texts us) (cipher_texts vs)
unfolding cipher_texts
cipher_texts-Perm = loop-Perm is_grease cipher_texts (refl, λ v vals. refl)

extension_texts-Perm :
    {us vs : List ℕ} → Perm us vs → Perm (extension_texts us) (extension_texts vs)
unfolding extension_texts
extension_texts-Perm =
    loop-Perm (λ e. is_grease e || e == ext_sni || e == ext_alpn) extension_texts
      (refl, λ v vals. refl)

count_from-Permᴰ : {us vs : List ℕ} (n : ℕ) → Permᴰ us vs → count_from n us ≡ count_from n vs
unfolding count_from
count_from-Permᴰ n Permᴰ.nil = refl
count_from-Permᴰ n (Permᴰ.cons {b = b} e p) =
    rw e (count_from-Permᴰ (if is_grease b then n else n + 1) p)
count_from-Permᴰ n (Permᴰ.swap e f) = ground arith
count_from-Permᴰ n (Permᴰ.trans p q) = count_from-Permᴰ n p ∙ count_from-Permᴰ n q

count_non_grease-Perm : {us vs : List ℕ} → Perm us vs → count_non_grease us ≡ count_non_grease vs
unfolding count_non_grease
count_non_grease-Perm p = let same = ∥∥₁_elim p (ℕ_set _ _) (count_from-Permᴰ 0) in rw same

hash_extension_texts-sorted :
    (d : Digests) (algs : List ℕ) (l m : List Bytes)
    → sort_strings l ≡ sort_strings m
    → hash_extension_texts d l algs ≡ hash_extension_texts d m algs
unfolding hash_extension_texts
hash_extension_texts-sorted d algs [] [] e = refl
hash_extension_texts-sorted d algs [] (y ∷ m) e =
    absurd (sort_strings-ne-nil y m (sym e ∙ unfold sort_strings in refl))
hash_extension_texts-sorted d algs (x ∷ l) [] e =
    absurd (sort_strings-ne-nil x l (e ∙ unfold sort_strings in refl))
hash_extension_texts-sorted d algs (x ∷ l) (y ∷ m) e = rw e

-- Two hellos that differ only in the order of their cipher suites and extensions have one JA4.
pub ja4-eq_of_Perm :
    (d : Digests) (c : ClientHello) {ciphers extensions : List ℕ}
    → Perm c.ciphers ciphers
    → Perm c.extensions extensions
    → ja4 d (record c { ciphers = ciphers; extensions = extensions }) ≡ ja4 d c
unfolding ja4 ciphers_hex_sorted ja4_extension_hash
ja4-eq_of_Perm d c p q = rw (
  ← count_non_grease-Perm p,
  ← count_non_grease-Perm q,
  ← sort_strings-eq_of_Perm (cipher_texts-Perm p),
  ← hash_extension_texts-sorted d c.sig_algs _ _ (sort_strings-eq_of_Perm (extension_texts-Perm q)),
)
