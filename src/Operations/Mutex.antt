-- ===== src/Operations/Mutex.antt =====
-- `g_library_mutex` of fs/operations.c, and the lines that take and release it in each operation.
use t_cnico_file_system_pt.Prelude.{
  ◌≡◌, refl, sym, arith, ℤ, pos, is_minus_one, true, false, if◌then◌else◌,
}
use t_cnico_file_system_pt.State.Types.{State, Fs, done, deadlock, pure, ◌>>=◌}

-- `pthread_mutex_lock` on a default mutex: it returns 0 with the mutex taken. The thread that
-- holds it already waits for ever.
unfoldable pub mutex_lock : Fs ℤ
mutex_lock s = elim s.mutex_locked [
  | true ↦ deadlock
  | false ↦ done (pos 0, record s { mutex_locked = true })
]

unfoldable pub mutex_unlock : Fs ℤ
mutex_unlock s = done (pos 0, record s { mutex_locked = false })

-- The lines before each `return ret`: unlock, and return -1 if that fails.
unfoldable pub unlock_and_return : {A : Type 0} → A → A → Fs A
unfolding mutex_unlock
unlock_and_return failed ret = do e ← mutex_unlock; if is_minus_one e then pure failed else pure ret

-- The lines at the start of each operation: lock, and return -1 if that fails.
unfoldable pub locked : {A : Type 0} → A → Fs A → Fs A
unfolding mutex_lock
locked failed body = do e ← mutex_lock; if is_minus_one e then pure failed else body

-- What a call does to a state with the mutex free: its body runs with the mutex taken.
pub locked-eq :
    {A : Type 0} (failed : A) (body : Fs A) (s : State)
    → s.mutex_locked ≡ false
    → locked failed body s ≡ body (record s { mutex_locked = true })
unfolding locked
locked-eq failed body s h = ground arith

pub unlock_and_return-eq :
    {A : Type 0} (failed ret : A) (s : State)
    → unlock_and_return failed ret s ≡ done (ret, record s { mutex_locked = false })
unfolding unlock_and_return
unlock_and_return-eq failed ret s = refl

pub unlocked-eq : (s : State) → s.mutex_locked ≡ false → record s { mutex_locked = false } ≡ s
unlocked-eq s h = λ i. record s { mutex_locked = sym h i }
