-- ===== src/Image/Refused.antt =====
-- include/pmm/persist_memory_manager.h, `load`: which images are refused, and what is left of them.
use netkeep80_persist_memory.Base.{
  Bool, ℕ, ◌%◌, ◌≤◌, ◌<◌, ◌≡◌, ◌≢◌, ◌==◌, eq→≡, some, refl, true, false, not, none, ◌⊎◌, inl, inr,
  arith, ltb, Bool-cases,
}
use netkeep80_persist_memory.Traits.{Traits}
use netkeep80_persist_memory.Memory.{ManagerHeader}
use netkeep80_persist_memory.Diagnostics.{VerifyResult, add, header_corruption, aborted, repair}
use netkeep80_persist_memory.FreeTree.Policy.{FreeBlockTreePolicy}
use netkeep80_persist_memory.Manager.{
  PmmError, backend_error, invalid_size, invalid_magic, unsupported_image_version, size_mismatch,
  granule_mismatch,
}
use netkeep80_persist_memory.ManagerLayout.{magic_number, current_image_version}
use netkeep80_persist_memory.State.{ManagerState}
use netkeep80_persist_memory.Image.{
  min_memory_size, is_supported_image_version, header_violation, HeaderViolation, report_header,
  load_accepted, Loading, refuse, load_guarded, load,
}

-- a header that an image of this size may have
pub record IsImage (at : Traits) (backend_size : ℕ) (h : ManagerHeader) : Type 0 where
  pub magic : h.magic ≡ magic_number
  pub version : h.image_version ≡ current_image_version
  pub size : h.total_size ≡ backend_size
  pub granule : h.granule_size ≡ at.granule_size % 65536

pub record IsLoadable (at : Traits) (s : ManagerState) : Type 0 where
  pub mapped : s.mapped ≡ true
  pub large : min_memory_size ≤ s.backend_size
  pub image : IsImage at s.backend_size s.arena.header

IsImage-none :
    (at : Traits) (size : ℕ) (h : ManagerHeader)
    → header_violation at size h ≡ none
    → IsImage at size h
unfolding header_violation is_supported_image_version
IsImage-none at size h e = record {
  magic = ground (arith, e);
  version = ground (arith, e);
  size = ground (arith, e);
  granule = ground (arith, e);
}

pub none-IsImage :
    (at : Traits) (size : ℕ) (h : ManagerHeader)
    → IsImage at size h
    → header_violation at size h ≡ none
unfolding header_violation is_supported_image_version
none-IsImage at size h k = ground (arith, k.magic, k.version, k.size, k.granule)

-- Why an image is refused: the error of the first demand that it does not meet, with the value that is
-- expected and the one that is found.
pub data IsRefusedFor (at : Traits) (s : ManagerState)
    : PmmError → (expected actual : ℕ) → Type 0 where
  unmapped : s.mapped ≡ false → IsRefusedFor at s backend_error 0 0
  small : s.mapped ≡ true → s.backend_size < min_memory_size → IsRefusedFor at s invalid_size 0 0
  wrong_magic :
      s.mapped ≡ true
      → min_memory_size ≤ s.backend_size
      → s.arena.header.magic ≢ magic_number
      → IsRefusedFor at s invalid_magic magic_number s.arena.header.magic
  wrong_version :
      s.mapped ≡ true
      → min_memory_size ≤ s.backend_size
      → s.arena.header.magic ≡ magic_number
      → s.arena.header.image_version ≢ current_image_version
      → IsRefusedFor at s unsupported_image_version current_image_version
          s.arena.header.image_version
  wrong_size :
      s.mapped ≡ true
      → min_memory_size ≤ s.backend_size
      → s.arena.header.magic ≡ magic_number
      → s.arena.header.image_version ≡ current_image_version
      → s.arena.header.total_size ≢ s.backend_size
      → IsRefusedFor at s size_mismatch s.backend_size s.arena.header.total_size
  wrong_granule :
      s.mapped ≡ true
      → min_memory_size ≤ s.backend_size
      → s.arena.header.magic ≡ magic_number
      → s.arena.header.image_version ≡ current_image_version
      → s.arena.header.total_size ≡ s.backend_size
      → s.arena.header.granule_size ≢ at.granule_size % 65536
      → IsRefusedFor at s granule_mismatch at.granule_size s.arena.header.granule_size

not_equal : (x y : ℕ) → (x == y) ≡ false → x ≢ y
not_equal x y e p = ground (arith, e, p)

module _ (at : Traits) (s : ManagerState) (mapped : s.mapped ≡ true)
    (large : min_memory_size ≤ s.backend_size) where
  header_violation-IsRefusedFor :
      (header_violation at s.backend_size s.arena.header ≡ none)
      ⊎ ((v : HeaderViolation) × (header_violation at s.backend_size s.arena.header ≡ some v)
          × IsRefusedFor at s v.error v.expected v.actual)
  unfolding header_violation is_supported_image_version
  header_violation-IsRefusedFor =
      let h : ManagerHeader = s.arena.header in
      elim (Bool-cases (h.magic == magic_number)) [
        | inr e ↦ rw e (
            inr (
              record { error = invalid_magic; expected = magic_number; actual = h.magic },
              refl,
              wrong_magic mapped large (not_equal h.magic magic_number e),
            ))
        | inl e ↦ elim (Bool-cases (h.image_version == current_image_version)) [
          | inr e1 ↦
              rw (e, e1)
                (inr (
                  record {
                    error = unsupported_image_version;
                    expected = current_image_version;
                    actual = h.image_version;
                  },
                  refl,
                  wrong_version mapped large (eq→≡ h.magic magic_number e)
                      (not_equal h.image_version current_image_version e1),
                ))
          | inl e1 ↦ elim (Bool-cases (h.total_size == s.backend_size)) [
            | inr e2 ↦
                rw (e, e1, e2)
                  (inr (
                    record {
                      error = size_mismatch;
                      expected = s.backend_size;
                      actual = h.total_size;
                    },
                    refl,
                    wrong_size mapped large (eq→≡ h.magic magic_number e)
                        (eq→≡ h.image_version current_image_version e1)
                        (not_equal h.total_size s.backend_size e2),
                  ))
            | inl e2 ↦ elim (Bool-cases (h.granule_size == at.granule_size % 65536)) [
              | inr e3 ↦
                  rw (e, e1, e2, e3)
                    (inr (
                      record {
                        error = granule_mismatch;
                        expected = at.granule_size;
                        actual = h.granule_size;
                      },
                      refl,
                      wrong_granule mapped large (eq→≡ h.magic magic_number e)
                          (eq→≡ h.image_version current_image_version e1)
                          (eq→≡ h.total_size s.backend_size e2)
                          (not_equal h.granule_size (at.granule_size % 65536) e3),
                    ))
              | inl e3 ↦ rw (e, e1, e2, e3) (inl refl)
            ]
          ]
        ]
      ]

-- The call has refused the image: one entry more in the report, with what is expected and what is found,
-- the error of the reason, and the rest of the manager as it was.
pub record IsRefusal (at : Traits) (r : VerifyResult) (s : ManagerState) (l : Loading)
    : Type 0 where
  pub error : PmmError
  pub expected : ℕ
  pub actual : ℕ
  pub reason : IsRefusedFor at s error expected actual
  pub result : l ≡ record {
    state = record s { last_error = error };
    report =
        add header_corruption aborted 0 expected actual (record r { mode = repair; ok = true });
    refused = true;
  }

module _ (at : Traits) (ft : FreeBlockTreePolicy) (registry_size : ℕ)
    (validate_or_bootstrap : ManagerState → ManagerState × Bool) where
  -- `load` goes on to the checks and repairs exactly if the image is mapped, not smaller than the least
  -- size, and its header has the magic number, the current version, the size of the image and the
  -- granule size. If not, it returns false, adds one entry to the report with the expected and the found
  -- value, sets the error of the first demand that is not met, and leaves the rest of the manager.
  pub load-IsLoadable :
      (r : VerifyResult) (s : ManagerState)
      → (IsLoadable at s
          × (load at ft registry_size validate_or_bootstrap r s
              ≡ load_accepted at ft registry_size validate_or_bootstrap
                  (record r { mode = repair; ok = true })
                  s))
        ⊎ ((¬ IsLoadable at s)
            × IsRefusal at r s (load at ft registry_size validate_or_bootstrap r s))
  unfolding load load_guarded report_header refuse
  load-IsLoadable r s = elim (Bool-cases (not (s.mapped))) [
    | inl e ↦ inr (
      (λ k. absurd (ground (arith, k.mapped, e))),
      rw e (record {
        error = backend_error;
        expected = 0;
        actual = 0;
        reason = unmapped (ground (arith, e));
        result = refl;
      }),
    )
    | inr e ↦ elim (Bool-cases (ltb s.backend_size min_memory_size)) [
      | inl f ↦ inr (
        (λ k. absurd (ground (arith, k.large, f))),
        rw (e, f)
            (record {
              error = invalid_size;
              expected = 0;
              actual = 0;
              reason = small (ground (arith, e)) (ground (arith, f));
              result = refl;
            }),
      )
      | inr f ↦ elim (header_violation-IsRefusedFor at s (ground (arith, e)) (ground (arith, f))) [
        | inl g ↦ inl (
          record {
            mapped = ground (arith, e);
            large = ground (arith, f);
            image = IsImage-none at s.backend_size s.arena.header g;
          },
          rw (e, f, g) refl,
        )
        | inr (v, g, why) ↦ inr (
          (λ k. let fine = none-IsImage at s.backend_size s.arena.header k.image in cc),
          rw (e, f, g)
              (record {
                error = v.error;
                expected = v.expected;
                actual = v.actual;
                reason = why;
                result = refl;
              }),
        )
      ]
    ]
  ]
