-- ===== src/Hash/Seek.antt =====
-- The table as a map from keys, taken up to case, to values.
use ape_server.Prelude.{
  ◌≤◌, ◌≡◌, refl, true, [], ◌∷◌, inl, inr, none, some, arith, if◌then◌else◌, Bool-cases, is_some,
  ==_iff, ap, Option-cases,
}
use ape_server.Prelude.Text.{CString, casecmp, casecmp_congr_right}
use ape_server.Hash.{Htbl, hashtbl_init, hashtbl_append, hashtbl_erase, hashtbl_seek}
use ape_server.Hash.Djb.{hach_string, hach_string-casecmp}
use ape_server.Hash.Chain.{
  Bucket, value_of, find, hits, hits-eq-zero, find-eq-none, find-assign, find-erase,
}

module _ {ℓ} {V : Type ℓ} (h : Htbl V) (key q : CString) where
  -- After an append of a value under a key, a seek finds that value under every key that is equal
  -- up to case, and under all other keys what it found before.
  pub seek-append :
      (v : V)
      → hashtbl_seek (hashtbl_append h (some key) v) (some q)
        ≡ (if casecmp key q then some v else hashtbl_seek h (some q))
  unfolding hashtbl_seek hashtbl_append find
  seek-append v =
      let k = hach_string key in
      elim (Bool-cases (is_some (find key (h.table k)))) [
        | inl there ↦ ground (
          arith,
          find-assign key q v (h.table k),
          hach_string-casecmp key q,
          ==_iff k (hach_string q),
          ap h.table {x = k} {y = hach_string q},
        )
        | inr new ↦ ground (arith, hach_string-casecmp key q, ==_iff k (hach_string q))
      ]

  pub seek-erase :
      hits q (h.table (hach_string q)) ≤ 1
      → hashtbl_seek (hashtbl_erase h (some key)) (some q)
        ≡ (if casecmp key q then none else hashtbl_seek h (some q))
  unfolding hashtbl_seek hashtbl_erase
  seek-erase once =
      let k = hach_string key in
      elim (Option-cases (find key (h.table k))) [
        | inl absent ↦ ground (
          arith,
          hach_string-casecmp key q,
          ==_iff k (hach_string q),
          ap h.table {x = k} {y = hach_string q},
          hits-eq-zero key q (h.table k),
          find-eq-none q (h.table k),
        )
        | inr (item, there) ↦ ground (
          arith,
          hach_string-casecmp key q,
          ==_iff k (hach_string q),
          find-erase key q (h.table k),
        )
      ]

module _ {ℓ} {V : Type ℓ} (key q : CString) (same : casecmp key q ≡ true) where
  find_congr : (c : Bucket V) → find key c ≡ find q c
  unfolding find
  find_congr [] = refl
  find_congr (item ∷ c) =
      let alike = casecmp_congr_right item.key key q same in
      elim (Bool-cases (casecmp item.key q)) [
        | inl e ↦ rw (alike, e) refl
        | inr e ↦ rw (alike, e) (find_congr c)
      ]

  -- Keys that differ in case alone are the same to a seek.
  pub hashtbl_seek_congr : (h : Htbl V) → hashtbl_seek h (some key) ≡ hashtbl_seek h (some q)
  unfolding hashtbl_seek
  hashtbl_seek_congr h =
      rw (hach_string-casecmp key q same) (ap value_of (find_congr (h.table (hach_string q))))

pub hashtbl_seek-init {ℓ} :
    {V : Type ℓ} (q : CString) → hashtbl_seek (hashtbl_init {V = V}) (some q) ≡ none
unfolding hashtbl_seek hashtbl_init find
hashtbl_seek-init q = refl
