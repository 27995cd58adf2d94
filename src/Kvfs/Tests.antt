-- ===== src/Kvfs/Tests.antt =====
-- src/fs/kvfs.c and src/fs/kvfile.c on a table with one value of five bytes.
use oslab2_virtualfs.Base.{
  ℕ, zero, suc, ◌≡◌, ◌≢◌, refl, sym, ap, ◌∙◌, arith, true, false, List, [], ◌∷◌, Option, some, ok,
  pos, replicate, inl, take, ◌+◌, minus_one,
}
use oslab2_virtualfs.Libc.Str.{memcpy, strcmp, strcpy, strlen, strlen_loop}
use oslab2_virtualfs.Libc.Str.Laws.{stored, IsText}
use oslab2_virtualfs.Kvfs.{
  Kvp, Store, unsigned, read, write, write_grown, expand, extend, lookup, create, create_entry,
  load, store, zero_fill,
}
use oslab2_virtualfs.Pmm.Tests.{one_used, alloc_512}
use oslab2_virtualfs.Kvfs.Create.{BlankKeys, create-lookup}
use oslab2_virtualfs.Kvfs.Laws.{read-write}
use oslab2_virtualfs.Kvfs.Refines.{contents, overwrite, padded, write-overwrite}
use oslab2_virtualfs.Kvfs.Lookup.{AllKeys, LookedUp, lookup_lem}
use oslab2_virtualfs.Vfs.Methods.{File}

abbrev key : List ℕ
key = b'k' ∷ []

abbrev value : Kvp
value = record {
  valid = true;
  key = stored key (0 ∷ []);
  length = 5;
  capacity = 512;
  address = 1024;
}

abbrev values : List Kvp
values = record { valid = false; key = 0 ∷ []; length = 0; capacity = 0; address = 0 } ∷ value ∷ []

abbrev opened : File
opened = record { fs = 500; inode = pos 1; refcnt = pos 1; offset = pos 3; flags = 6 }

abbrev memory : Store
memory = record {
  bytes = λ p. 7;
  pmm = record { chk_start = 1; chk_end = 8; mem_table = 255 ∷ replicate 7 0 };
}

abbrev four : List ℕ
four = 1 ∷ 2 ∷ 3 ∷ 4 ∷ []

-- The value and the memory after four bytes were written from offset 3 on.
abbrev longer : Kvp
longer = record value { length = 7 }

abbrev after_write : Store
after_write = record memory { bytes = store 1027 four (zero_fill 2 1029 memory.bytes) }

write_four :
    write opened value four 4 memory
    ≡ ok (pos 4, record opened { offset = pos 7 }, longer, after_write)
unfolding write write_grown expand extend memcpy load
write_four = refl

read-write_example :
    read opened longer (9 ∷ 9 ∷ 9 ∷ 9 ∷ 9 ∷ []) 4 after_write
    ≡ ok (pos 4, 1 ∷ 2 ∷ 3 ∷ 4 ∷ 9 ∷ [], record opened { offset = pos 7 })
read-write_example =
    read-write opened value four 4 memory (record opened { offset = pos 7 }) longer after_write
      (pos 4) (9 ∷ 9 ∷ 9 ∷ 9 ∷ 9 ∷ []) (omega arith) (omega arith) (omega arith) write_four refl

write-overwrite_example :
    contents longer after_write
    ≡ overwrite
        (unsigned opened.offset)
        (take 4 four)
        (padded (unsigned opened.offset + 4) (contents value memory))
write-overwrite_example =
    write-overwrite opened value four 4 memory (pos 4) (record opened { offset = pos 7 }) longer
      after_write (omega arith) (omega arith) write_four refl (inl refl)

same_entry : (a e : Kvp) → ◌≡◌ {A = Option Kvp} (some a) (some e) → e ≡ a
same_entry a e h = cc

values-AllKeys : AllKeys values
values-AllKeys zero e h on =
    absurd (true_ne_false (sym on ∙ ap (λ (x : Kvp). x.valid) (same_entry _ e h)))
  where
    true_ne_false : true ≢ false
    true_ne_false q = cc
values-AllKeys (suc zero) e h on =
    (key, 0 ∷ [], ap (λ (x : Kvp). x.key) (same_entry _ e h), (omega arith, omega arith, tt))
values-AllKeys (suc (suc j)) e h on = cc

lookup_lem_example : LookedUp values key 0 (lookup values (stored key []) 0)
lookup_lem_example = lookup_lem values key [] 0 values-AllKeys (omega arith, omega arith, tt)

lookup_1 : lookup values (stored key []) 0 ≡ ok (pos 1)
unfolding lookup strcmp
lookup_1 = refl

-- The key `n` in a table whose first entry has not been used.
abbrev new_key : List ℕ
new_key = b'n' ∷ []

abbrev with_blank : List Kvp
with_blank =
    record { valid = false; key = replicate 32 0; length = 0; capacity = 0; address = 0 }
    ∷ value
    ∷ []

abbrev created : Kvp
created = record {
  valid = true;
  key = stored new_key (replicate 30 0);
  length = 0;
  capacity = 512;
  address = 512;
}

abbrev after_create : Store
after_create = record memory { pmm = one_used }

creates_new :
    create with_blank (stored new_key []) memory ≡ ok (pos 0, created ∷ value ∷ [], after_create)
unfolding create create_entry strlen strlen_loop strcpy
creates_new = rw (alloc_512) refl

with_blank-BlankKeys : BlankKeys with_blank
with_blank-BlankKeys zero e h off = ap (λ (x : Kvp). x.key) (same_entry _ e h)
with_blank-BlankKeys (suc zero) e h off =
    absurd (true_ne_false (sym (ap (λ (x : Kvp). x.valid) (same_entry _ e h)) ∙ off))
  where
    true_ne_false : true ≢ false
    true_ne_false q = cc
with_blank-BlankKeys (suc (suc j)) e h off = cc

not_found : lookup with_blank (stored new_key []) 0 ≡ ok minus_one
unfolding lookup strcmp
not_found = refl

create-lookup_example :
    (lookup (created ∷ value ∷ []) (stored new_key []) 0 ≡ ok (pos 0))
    × ((other after : List ℕ)
        → IsText other
        → other ≢ new_key
        → lookup (created ∷ value ∷ []) (stored other after) 0
          ≡ lookup with_blank (stored other after) 0)
create-lookup_example =
    create-lookup with_blank (created ∷ value ∷ []) new_key [] memory after_create 0
      with_blank-BlankKeys (omega arith, omega arith, tt) (λ e. cc) not_found creates_new
