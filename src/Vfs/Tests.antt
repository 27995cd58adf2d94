-- ===== src/Vfs/Tests.antt =====
-- src/vfs.c over kvfs with one value, with two file systems mounted.
use oslab2_virtualfs.Base.{
  ℕ, zero, suc, ◌≡◌, ◌≢◌, ◌≤◌, ◌<◌, ◌⊎◌, refl, sym, ap, ◌∙◌, arith, true, false, List, [], ◌∷◌,
  ◌++◌, Option, none, some, ok, pos, minus_one, is_zero, dec, length, replicate,
}
use oslab2_virtualfs.Libc.Str.Laws.{IsText, stored}
use oslab2_virtualfs.Libc.Rand.{initial}
use oslab2_virtualfs.Kmt.{Thread}
use oslab2_virtualfs.Kmt.Spin.{spin_magic, anon}
use oslab2_virtualfs.Vfs.Methods.{Drivers}
use oslab2_virtualfs.Vfs.Locking.{Idle}
use oslab2_virtualfs.Kvfs.{Kvp}
use oslab2_virtualfs.Kvfs.Methods.{Memory, methods, methods-Laws}
use oslab2_virtualfs.Vfs.Laws.{Laws, Stops}
use oslab2_virtualfs.Vfs.Steps.{Passes}
use oslab2_virtualfs.Vfs.Match.{AllStored}
use oslab2_virtualfs.Vfs.Find.{Longest, find_fs_lem}
use oslab2_virtualfs.Vfs.Access.{Accessed, access_lem}
use oslab2_virtualfs.Vfs.Open.{Opens, open_path-Opens}
use oslab2_virtualfs.Vfs.Io.{write-Passes}
use oslab2_virtualfs.Vfs.Close.{Closed, released, close-Closed}
use oslab2_virtualfs.Vfs.{Vfs, Mount, find_fs, find_loop, match_loop, file_at}
use oslab2_virtualfs.Vfs.Calls.{access, open_path, write, close}

-- kvfs with one value, whose key is "x".
abbrev kvfs : Drivers Memory
kvfs = methods 28

kvfs-Laws : Laws kvfs
kvfs-Laws = methods-Laws 28

abbrev value : Kvp
value = record {
  valid = true;
  key = b'x' ∷ replicate 31 0;
  length = 3;
  capacity = 512;
  address = 1024;
}

-- The running thread, with descriptor 1 free.
abbrev shell : Thread
shell = record {
  tid = 0;
  status = 2;
  intr_cnt = pos 0;
  stack_start = 65536;
  stack_end = 69632;
  regset = 65600;
  fd = some 900 ∷ none ∷ some 901 ∷ replicate 13 none;
}

abbrev root : List ℕ
root = b'/' ∷ []

abbrev tmp : List ℕ
tmp = b'/' ∷ b't' ∷ b'/' ∷ []

abbrev table : List Mount
table =
    record { valid = true; path = stored root []; fs = 500 }
    ∷ record { valid = true; path = stored tmp (0 ∷ []); fs = 600 }
    ∷ record { valid = false; path = 0 ∷ []; fs = 0 }
    ∷ []

abbrev system : Vfs Memory
system = record {
  sys = record {
    kmt = record {
      intr = true;
      this_thread = 100;
      threads = 100 ∷ replicate 31 0;
      thread = λ p. shell;
      word = λ p. 0;
      rng = initial;
      pmm = record { chk_start = 1; chk_end = 1; mem_table = 255 ∷ [] };
    };
    filesystem = λ p. record { name = anon; refcnt = pos 2 };
    file = λ f. record { fs = 600; inode = pos 0; refcnt = pos 1; offset = pos 0; flags = 6 };
    world = record { tables = λ p. value ∷ []; bytes = λ p. b'a' };
  };
  mounts = table;
  lock = record { magic = spin_magic; name = anon; holder = 0 };
}

system-Idle : Idle system
system-Idle = record {
  open_lock = record { initialised = refl; unheld = refl };
  balanced = record { counted = (0, refl); flag = refl };
  thread = omega arith;
}

same_entry : (a m : Mount) → ◌≡◌ {A = Option Mount} (some a) (some m) → m ≡ a
same_entry a m e = cc

table-AllStored : AllStored table
table-AllStored zero m e on =
    (root, [], ap (λ (x : Mount). x.path) (same_entry _ m e), (omega arith, omega arith, tt))
table-AllStored (suc zero) m e on = (
  tmp,
  0 ∷ [],
  ap (λ (x : Mount). x.path) (same_entry _ m e),
  (omega arith, omega arith, (omega arith, omega arith, (omega arith, omega arith, tt))),
)
table-AllStored (suc (suc zero)) m e on =
    let off : m.valid ≡ false = ap (λ (x : Mount). x.valid) (same_entry _ m e) in
    absurd (true_ne_false (sym on ∙ off))
  where
    true_ne_false : true ≢ false
    true_ne_false h = cc
table-AllStored (suc (suc (suc j))) m e on = cc

slot_0 : file_at (pos 0) system ≡ ok 900
unfolding file_at
slot_0 = refl

-- "/t/x"
abbrev name : List ℕ
name = tmp ++ b'x' ∷ []

name-IsText : IsText name
name-IsText = (
  omega arith,
  omega arith,
  (omega arith, omega arith, (omega arith, omega arith, (omega arith, omega arith, tt))),
)

found_600 : find_fs (stored name []) table ≡ ok (pos 1)
unfolding find_fs find_loop match_loop
found_600 = refl

find_fs_lem_example : Longest table name (find_fs (stored name []) table)
find_fs_lem_example = find_fs_lem table name [] table-AllStored name-IsText

access_lem_example :
    ((128 ≤ length name) × (access kvfs (stored name []) 4 system ≡ ok (minus_one, system)))
    ⊎ ((length name < 128)
        × Accessed kvfs-Laws system system-Idle name [] 4 (access kvfs (stored name []) 4 system))
access_lem_example = access_lem kvfs-Laws system system-Idle name [] 4 table-AllStored name-IsText

open_path-Opens_example :
    Opens kvfs-Laws system name [] 6 (open_path kvfs (stored name []) 6 system)
open_path-Opens_example =
    open_path-Opens kvfs-Laws system name [] 6 system-Idle table-AllStored name-IsText

write-Passes_example : Passes system (kvfs.write 900 name 2) (write kvfs (pos 0) name 2 system)
write-Passes_example = write-Passes kvfs-Laws system system-Idle (pos 0) 900 slot_0 name 2

close-Closed_example :
    ((v' : Vfs Memory) × (close kvfs (pos 0) system ≡ ok (pos 0, v'))
      × Closed kvfs-Laws system (pos 0) 900 v')
    ⊎ ((is_zero (dec (pos 1)) ≡ true)
        × Stops
            (kvfs.delete_file 900 (released kvfs-Laws system (pos 0) 900).sys)
            (close kvfs (pos 0) system))
close-Closed_example = close-Closed kvfs-Laws system (pos 0) 900 system-Idle slot_0
