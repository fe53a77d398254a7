-- ===== src/Mount/Tests.antt =====
-- The first type, at 10 without a name, the type 20, and the new type 30.
use system_studying.Base.{◌+◌, ◌≡◌, ◌==◌, refl, some, [], ◌∷◌, arith, if◌then◌else◌}
use system_studying.Links.{Addr}
use system_studying.Mount.{Types, mount_fs, register_filesystem, unregister_filesystem}
use system_studying.Mount.Found.{IsTypes}
use system_studying.Mount.Registered.{registered-mounts}

abbrev types : Types
types = record {
  filesystem = 10;
  name = λ a. if a == 10 then [] else if a == 20 then 70 ∷ 65 ∷ [] else 70 ∷ 66 ∷ [];
  next = λ a. if a == 10 then 20 else 0;
}

types-IsTypes : IsTypes types (20 ∷ [])
types-IsTypes = record {
  leads = (refl, omega arith, refl);
  distinct = omega arith;
  real = omega arith;
}

registered-mounts_example :
    (t1 : Types) × (t2 : Types) × (register_filesystem 4 30 types ≡ some (1, t1))
    × (mount_fs 4 (λ (a : Addr). a + 1) 0 (70 ∷ 66 ∷ []) t1 ≡ some 31)
    × (unregister_filesystem 4 30 t1 ≡ some (1, t2))
    × IsTypes t2 (20 ∷ [])
registered-mounts_example =
    registered-mounts 4 (λ (a : Addr). a + 1) 0 30 types (20 ∷ []) types-IsTypes (omega arith)
      (omega arith) (refl, (refl, tt)) (omega arith)
