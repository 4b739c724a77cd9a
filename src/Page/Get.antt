-- ===== src/Page/Get.antt =====
-- `page_get` is the index into the list of a page's records.
use garry.Base.{
  ℕ, zero, suc, ◌+◌, ◌^◌, ◌≤◌, ◌<◌, ◌≡◌, ltb, ◌||◌, if◌then◌else◌, refl, sym, inl, inr, ◌∙◌, ◌⊎◌,
  arith, List, [], ◌∷◌, ◌++◌, length, ap, none, some, get_elem?, length-append, ◌==◌, ne→==,
  ==_refl,
}
use native.Mathlib.Decide.{dec_lt, ℕ_discrete}
use garry.Base.Buffer.{Buffer, read_bytes}
use garry.Base.Word.{sub32, slt, sle}
use garry.Endian.{read_int32}
use garry.Page.{header_size, off_free_end, read_slot, page_get, page_record_count}
use garry.Page.Layout.{IsPage, record_at, contents}

get_elem?-snoc {ℓ} :
    {A : Type ℓ} (xs : List A) (y : A) (i : ℕ)
    → get_elem? (xs ++ (y ∷ [])) i ≡ (if i == length xs then some y else get_elem? xs i)
get_elem?-snoc [] y zero = refl
get_elem?-snoc [] y (suc i) = rw (ne→== (suc i) 0 (λ e. omega arith))
get_elem?-snoc (x ∷ xs) y zero = rw (ne→== 0 (suc (length xs)) (λ e. omega arith))
get_elem?-snoc (x ∷ xs) y (suc i) = get_elem?-snoc xs y i ∙ shift
  where
    shift :
        (if i == length xs then some y else get_elem? xs i)
        ≡ (if suc i == suc (length xs) then some y else get_elem? xs i)
    shift = ap (λ b. if b then some y else get_elem? xs i) (ground arith)

pub length-contents : (buf : Buffer) (n : ℕ) → length (contents buf n) ≡ n
unfolding contents
length-contents buf zero = refl
length-contents buf (suc n) =
    omega (arith, length-append (contents buf n) (record_at buf n ∷ []), length-contents buf n)

pub get_elem?-contents :
    (buf : Buffer) (n i : ℕ)
    → get_elem? (contents buf n) i ≡ (if ltb i n then some (record_at buf i) else none)
unfolding contents
get_elem?-contents buf zero i = ground arith
get_elem?-contents buf (suc n) i =
    get_elem?-snoc (contents buf n) (record_at buf n) i
    ∙ rw (length-contents, get_elem?-contents buf n i) (last (ℕ_discrete i n))
  where
    last :
        Dec (i ≡ n)
        → (if i == n
            then some (record_at buf n)
            else if ltb i n
            then some (record_at buf i)
            else none)
          ≡ (if ltb i (suc n) then some (record_at buf i) else none)
    last (yes e) = rw e (ground arith)
    last (no ne) = ground arith

length_max :
    (buf : Buffer) {size n : ℕ} (i : ℕ)
    → IsPage buf size n
    → i < n
    → (read_slot buf i).length + header_size ≤ size
length_max buf {size} i page h = go (page.slots i h)
  where
    go :
        ((read_slot buf i).length ≡ 0)
          ⊎ ((read_int32 buf off_free_end ≤ (read_slot buf i).offset)
              × ((read_slot buf i).offset + (read_slot buf i).length ≤ size))
        → (read_slot buf i).length + header_size ≤ size
    go (inl z) = omega (arith, page.size_min)
    go (inr (lo, hi)) = omega (arith, page.room)

-- On a well-formed page `page_get` at an index that is not negative gives the record of that index
-- in the list of the records, and -1 when the list is shorter.
pub page_get-contents :
    (buf : Buffer) (size n i : ℕ)
    → IsPage buf size n
    → i < 2 ^ 31
    → page_get buf i size ≡ get_elem? (contents buf n) i
unfolding page_get page_record_count record_at
page_get-contents buf size n i page h =
    rw (page.count, get_elem?-contents buf n i) (split (dec_lt i n))
  where
    split :
        Dec (i < n)
        → (if slt i 0 || sle n i
            then none
            else if slt (sub32 size header_size) (read_slot buf i).length
            then none
            else some (read_bytes buf (read_slot buf i).offset (read_slot buf i).length))
          ≡ (if ltb i n then some (record_at buf i) else none)
    split (yes q) =
        let m : (read_slot buf i).length + header_size ≤ size = length_max buf i page q in
        ground (arith, page.few, page.size_max)
    split (no q) = ground (arith, page.few)

-- What an insert changes for `page_get`: the new index gives the new record, and the older indices
-- give what they gave.
module _ {buf buf' : Buffer} {size n : ℕ} (rec : List ℕ) (page : IsPage buf size n)
    (page' : IsPage buf' size (n + 1))
    (appended : contents buf' (n + 1) ≡ contents buf n ++ (rec ∷ [])) where
  pub page_get_new : page_get buf' n size ≡ some rec
  page_get_new =
      page_get-contents buf' size (n + 1) n page' (omega (arith, page.few))
      ∙ rw (appended, get_elem?-snoc, length-contents, ==_refl n)

  pub page_get_old : (i : ℕ) → i < n → page_get buf' i size ≡ page_get buf i size
  page_get_old i h =
      page_get-contents buf' size (n + 1) i page' (omega (arith, page.few))
      ∙ rw (appended, get_elem?-snoc, length-contents, ne→== i n (omega arith)) refl
      ∙ sym (page_get-contents buf size n i page (omega (arith, page.few)))
