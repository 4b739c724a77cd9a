-- ===== src/Page/Tests.antt =====
-- Runs of the slotted page, and its theorems at concrete inputs.
use garry.Base.{ℕ, ◌≡◌, refl, List, [], ◌∷◌, ◌++◌, Option, none, some, arith, get_elem?}
use garry.Base.Buffer.{Buffer, copy_in, read_bytes}
use garry.Endian.{read_int32, write_int32}
use garry.Page.{
  page_init, page_insert, page_get, no_room, page_record_count, write_record, read_slot, write_slot,
}
use garry.Page.Layout.{IsPage, page_init-IsPage, contents}
use garry.Page.Insert.{page_insert_appends, fits}
use garry.Page.Get.{page_get-contents}
use mathlib.Core.Option

abbrev blank : Buffer
blank j = 255

-- a leaf page of 512 bytes
abbrev leaf : Buffer
leaf = page_init blank 1 0 512

leaf-IsPage : IsPage leaf 512 0
leaf-IsPage = page_init-IsPage blank 1 0 512 (omega arith) (omega arith)

abbrev second_record : Option (ℕ × Buffer) → Option (List ℕ)
second_record none = none
second_record (some (i, b)) = page_get b i 512

two_inserts :
    second_record (Option.bind (page_insert leaf (7 ∷ 8 ∷ [])) (λ r. page_insert r.1 (9 ∷ [])))
    ≡ some (9 ∷ [])
unfolding page_insert page_get no_room page_record_count page_init write_record read_slot
    Option.bind read_int32 write_int32 copy_in write_slot read_bytes
two_inserts = refl

page_insert_appends_example :
    (buf' : Buffer) × (page_insert leaf (7 ∷ 8 ∷ []) ≡ some (0, buf'))
    × IsPage buf' 512 1
    × (contents buf' 1 ≡ contents leaf 0 ++ ((7 ∷ 8 ∷ []) ∷ []))
unfolding page_init read_int32 write_int32 fits
page_insert_appends_example = page_insert_appends leaf-IsPage (7 ∷ 8 ∷ []) (omega arith) refl

page_get-contents_example : page_get leaf 0 512 ≡ get_elem? (contents leaf 0) 0
page_get-contents_example = page_get-contents leaf 512 0 0 leaf-IsPage (omega arith)
