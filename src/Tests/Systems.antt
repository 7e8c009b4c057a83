-- ===== src/Tests/Systems.antt =====
-- A system whose calls succeed, on which a section in shared memory is there already.
use libshdata.Common.{ℕ, ◌≡◌, ◌≤◌, subst, ap, true, List, [], ◌∷◌, arith}
use libshdata.Common.Int.{pos}
use libshdata.Types.{Hdr}
use libshdata.Backend.Os.{
  Os, IsOs, Answer, error, value, Flag, o_creat, o_excl, o_rdwr, o_rdonly, flag,
}
use libshdata.Header.{hdr_write}
use libshdata.Tests.Writes.{memory, new_info}
use libshdata.Tests.Fixtures.{full}

-- File 3 is a section that exists, so that it is not created again.
abbrev pub shm_answer : List Flag → Answer
shm_answer [] = value 3
shm_answer (o_creat ∷ flags) = error 17
shm_answer (o_excl ∷ flags) = value 3
shm_answer (o_rdwr ∷ flags) = value 3
shm_answer (o_rdonly ∷ flags) = value 3
shm_answer (flag n ∷ flags) = value 3

abbrev pub written_hdr : Hdr
written_hdr = (hdr_write (memory full).hdr new_info).1

abbrev pub system : Os
system = record {
  allocated = λ h. true;
  shm_open = λ name flags. shm_answer flags;
  open_file = λ name flags. value 4;
  set_close_on_exec = λ fd. pos 0;
  offset_end = λ fd. pos 400;
  mmap = λ size writable fd offset. value 4096;
  contents = λ ptr. written_hdr;
  unset = (memory full).hdr;
  ftruncate = λ fd size. pos 0;
  flock_ex = λ fd. pos 0;
  flock_un = λ fd. pos 0;
}

answered : Answer → ℕ
answered (error n) = n
answered (value n) = n

shm_answer-errno : (flags : List Flag) (n : ℕ) → shm_answer flags ≡ error n → 1 ≤ n
unfolding answered
shm_answer-errno [] n e = absurd (cc e)
shm_answer-errno (o_creat ∷ flags) n e = subst (λ x. 1 ≤ x) (ap answered e) (omega arith)
shm_answer-errno (o_excl ∷ flags) n e = absurd (cc e)
shm_answer-errno (o_rdwr ∷ flags) n e = absurd (cc e)
shm_answer-errno (o_rdonly ∷ flags) n e = absurd (cc e)
shm_answer-errno (flag k ∷ flags) n e = absurd (cc e)

value-errno : (k n : ℕ) → value k ≡ error n → 1 ≤ n
value-errno k n e = absurd (cc e)

value_positive : (n : ℕ) → value 4096 ≡ value n → 1 ≤ n
unfolding answered
value_positive n e = subst (λ x. 1 ≤ x) (ap answered e) (omega arith)

pub system-IsOs : IsOs system
system-IsOs = record {
  shm_open_errno = λ name flags n. shm_answer-errno flags n;
  open_file_errno = λ name flags n. value-errno 4 n;
  mmap_errno = λ size writable fd offset n. value-errno 4096 n;
  mmap_value = λ size writable fd offset n. value_positive n;
}
