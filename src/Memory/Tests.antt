-- ===== src/Memory/Tests.antt =====
-- The heap's theorems at one free block of 32 bytes.
use xinu_swd.Prelude.{◌≡◌, refl, none, some, [], ◌∷◌, arith, if◌then◌else◌, ◌==◌}
use xinu_swd.Prelude.Int.{ℤ, pos}
use xinu_swd.Conf.{ok, syserr}
use xinu_swd.Memory.{Mem, put, getmem, get_loop, freemem, roundmb}
use xinu_swd.Memory.Freemem.{Result, freemem-give_back}
use xinu_swd.Memory.Roundtrip.{freemem-getmem}
use xinu_swd.Memory.Blocks.{IsFree, first_fit, give_back}
use xinu_swd.Memory.Get.{SameBounds, getmem-first_fit, getmem-wrap}

abbrev heap : Mem
heap = record {
  mnext = λ a. if a == 8 then 64 else 0;
  mlen = λ a. if a == 64 then 32 else 0;
  memlist = 8;
  maxaddr = 1024;
  end = 16;
}

heap-IsFree : IsFree heap 8 16 ((64, 32) ∷ [])
heap-IsFree = (refl, refl, omega arith, omega arith, omega arith, refl)

getmem-first_fit_example :
    (r : ℤ) × (m' : Mem) × (getmem 5 12 heap ≡ some (r, m'))
    × (r ≡ elim (first_fit (roundmb 12) ((64, 32) ∷ [])) [ none ↦ syserr | some g ↦ pos g.0 ])
    × IsFree m' 8 16
        (elim (first_fit (roundmb 12) ((64, 32) ∷ [])) [ none ↦ (64, 32) ∷ [] | some g ↦ g.1 ])
    × SameBounds heap m'
getmem-first_fit_example =
    getmem-first_fit 5 12 16 heap ((64, 32) ∷ []) (omega arith) heap-IsFree (omega arith)
      (omega arith) (omega arith)

getmem-wrap_example : (m' : Mem) × (getmem 5 4294967295 heap ≡ some (pos 64, m'))
getmem-wrap_example =
    getmem-wrap 4 4294967295 16 64 32 heap [] (omega arith) heap-IsFree (omega arith) (omega arith)

-- The heap after a request of 12 bytes.
abbrev taken : Mem
taken = record heap { mnext = put (put heap.mnext 8 80) 80 0; mlen = put heap.mlen 80 16 }

freemem-getmem_example :
    (m'' : Mem) × (freemem 5 64 12 taken ≡ some (ok, m'')) × IsFree m'' 8 16 ((64, 32) ∷ [])
unfolding getmem get_loop roundmb
freemem-getmem_example =
    freemem-getmem 5 12 16 64 heap taken ((64, 32) ∷ []) (omega arith) (omega arith) heap-IsFree
      (omega arith) (omega arith) (omega arith) refl (omega arith)

freemem-give_back_example :
    (r : ℤ) × (m' : Mem) × (freemem 5 128 8 heap ≡ some (r, m'))
    × Result heap 16 ((64, 32) ∷ []) (give_back 128 (roundmb 8) ((64, 32) ∷ [])) r m'
unfolding roundmb
freemem-give_back_example =
    freemem-give_back 5 128 8 16 heap ((64, 32) ∷ []) (omega arith) (omega arith) (omega arith)
      (omega arith) (omega arith) (omega arith) (omega arith) heap-IsFree (omega arith)
