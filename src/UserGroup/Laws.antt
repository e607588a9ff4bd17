-- ===== src/UserGroup/Laws.antt =====
-- Which arguments are split, and into what.
use keytap.Base.{
  ℕ, zero, suc, ◌+◌, ◌≡◌, refl, arith, sym, subst, ap, false, ◌==◌, Bool-cases, inl, inr, Option,
  [], ◌∷◌, ◌++◌, All, length, take, drop, ap₂,
}
use keytap.Config.Lua.{Bytes}
use keytap.UserGroup.{parts, find_colon, split_at, split_user_group}

abbrev pub NoColon : Bytes → Type 0
NoColon cs = All (λ (c : ℕ). (c == b':') ≡ false) cs

find_colon-NoColon :
    (cs : Bytes) (i : ℕ) (colon : Option ℕ) → NoColon cs → find_colon cs i colon ≡ Option.some colon
unfolding find_colon
find_colon-NoColon [] i colon h = refl
find_colon-NoColon (c ∷ cs) i colon h = rw h.0 (find_colon-NoColon cs (i + 1) colon h.1)

find_colon-append :
    (u g : Bytes) (i : ℕ)
    → NoColon u
    → NoColon g
    → find_colon (u ++ (b':' ∷ g)) i Option.none ≡ Option.some (Option.some (i + length u))
unfolding find_colon
find_colon-append [] g i hu hg =
    rw (find_colon-NoColon g (i + 1) (Option.some i) hg)
      (ap (λ k. Option.some (Option.some k)) (omega arith))
find_colon-append (c ∷ u) g i hu hg =
    rw (hu.0, find_colon-append u g (i + 1) hu.1 hg)
      (ap (λ k. Option.some (Option.some k)) (omega arith))

take-part : (u rest : Bytes) (k : ℕ) → k ≡ length u → take k (u ++ rest) ≡ u
take-part [] rest zero e = refl
take-part [] rest (suc k) e = absurd (omega (arith, e))
take-part (c ∷ u) rest zero e = absurd (omega (arith, e))
take-part (c ∷ u) rest (suc k) e = ap (◌∷◌ c) (take-part u rest k (omega (arith, e)))

drop-part : (u : Bytes) (c : ℕ) (g : Bytes) (k : ℕ) → k ≡ length u + 1 → drop k (u ++ (c ∷ g)) ≡ g
drop-part u c g zero e = absurd (omega (arith, e))
drop-part [] c g (suc zero) e = refl
drop-part [] c g (suc (suc k)) e = absurd (omega (arith, e))
drop-part (d ∷ u) c g (suc k) e = drop-part u c g k (omega (arith, e))

-- A user and a group without colons, joined by one, are split into themselves.
pub split_user_group-append :
    (u g : Bytes)
    → NoColon u
    → NoColon g
    → split_user_group (Option.some (u ++ (b':' ∷ g))) ≡ parts u g
unfolding split_user_group
split_user_group-append u g hu hg =
    rw (find_colon-append u g 0 hu hg)
      (ap₂ parts (take-part u (b':' ∷ g) _ (omega arith)) (drop-part u b':' g _ (omega arith)))

-- Once a colon is found, the loop succeeds only without another.
after_colon :
    (cs : Bytes) (i j : ℕ) (o : Option ℕ)
    → find_colon cs i (Option.some j) ≡ Option.some o
    → NoColon cs × (Option.some j ≡ o)
unfolding find_colon
after_colon [] i j o e = (tt, cc)
after_colon (c ∷ cs) i j o e = elim (Bool-cases (c == b':')) [
  | inl colon ↦ let bad = rw colon at e in cc
  | inr other ↦
      let (clean, same) = after_colon cs (i + 1) j o (rw other at e) in ((other, clean), same)
]

-- A text that is split at a colon.
pub record SplitAt (cs : Bytes) (i k : ℕ) : Type 0 where
  pub user : Bytes
  pub group : Bytes
  pub joined : cs ≡ user ++ (b':' ∷ group)
  pub place : k ≡ i + length user
  pub user_clean : NoColon user
  pub group_clean : NoColon group

find_colon-SplitAt :
    (cs : Bytes) (i k : ℕ)
    → find_colon cs i Option.none ≡ Option.some (Option.some k)
    → SplitAt cs i k
unfolding find_colon
find_colon-SplitAt [] i k e = cc
find_colon-SplitAt (c ∷ cs) i k e = elim (Bool-cases (c == b':')) [
  | inl colon ↦
      let (clean, same) = after_colon cs (i + 1) i (Option.some k) (rw colon at e) in
      let first : c ≡ b':' = ground arith in
      let here : i ≡ k = cc in
      record {
        user = [];
        group = cs;
        joined = ap (λ x. x ∷ cs) first;
        place = omega arith;
        user_clean = tt;
        group_clean = clean;
      }
  | inr other ↦
      let found = find_colon-SplitAt cs (i + 1) k (rw other at e) in
      record {
        user = c ∷ found.user;
        group = found.group;
        joined = ap (◌∷◌ c) found.joined;
        place = omega (arith, found.place);
        user_clean = (other, found.user_clean);
        group_clean = found.group_clean;
      }
]

-- When a text is split into two parts, the parts joined by a colon are the text, and hold no colon.
pub split_user_group-parts :
    (s u g : Bytes)
    → split_user_group (Option.some s) ≡ parts u g
    → (s ≡ u ++ (b':' ∷ g)) × NoColon u × NoColon g
unfolding split_user_group
split_user_group-parts s u g e = searched (find_colon s 0 Option.none) refl e
  where
    searched :
        (m : Option (Option ℕ))
        → find_colon s 0 Option.none ≡ m
        → split_at s m ≡ parts u g
        → (s ≡ u ++ (b':' ∷ g)) × NoColon u × NoColon g
    searched Option.none em e = cc
    searched (Option.some Option.none) em e = cc
    searched (Option.some (Option.some k)) em e =
        let at : SplitAt s 0 k = find_colon-SplitAt s 0 k em in
        let t : take k s ≡ at.user =
          subst (λ x. take k x ≡ at.user) (sym at.joined)
            (take-part at.user (b':' ∷ at.group) k (omega (arith, at.place))) in
        let d : drop (k + 1) s ≡ at.group =
          subst (λ x. drop (k + 1) x ≡ at.group) (sym at.joined)
            (drop-part at.user b':' at.group (k + 1) (omega (arith, at.place))) in
        let same_user : u ≡ at.user = cc in
        let same_group : g ≡ at.group = cc in
        rw (same_user, same_group) (at.joined, at.user_clean, at.group_clean)
