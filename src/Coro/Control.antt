-- ===== src/Coro/Control.antt =====
-- src/net/coro/epoll_wrap.hpp: the calls of epoll_ctl. What the kernel watches is a function from
-- descriptors to events, an event is a number, and the errors of the kernel are an argument. An
-- exception is a fault.
use adl_server.Base.{
  ℕ, zero, suc, Bool, true, false, not, ◌||◌, ◌==◌, if◌then◌else◌, Option, none, some, inl, inr,
  ◌⊎◌, Result, ok, fault, uncaught, endless, ◌≡◌, ◌≢◌, refl, arith,
}

pub data Op : Type 0 where
  ctl_add ctl_mod ctl_del : Op

-- EEXIST and ENOENT.
abbrev pub eexist : ℕ
eexist = 17

abbrev pub enoent : ℕ
enoent = 2

abbrev pub Watched : Type 0
Watched = ℕ → Option ℕ

-- The kernel: an error for a call, or what it watches behind it.
abbrev pub Kernel : Type 0
Kernel = Op → ℕ → ℕ → Watched → ℕ ⊎ Watched

-- What the loop of `ctl` does with the result of a call; `again` is the next round.
unfoldable pub react : ℕ ⊎ Watched → Bool → Result Watched → Result Watched
react (inr v) add_retry again = ok v
react (inl errno) add_retry again =
    if not (errno == eexist) || not add_retry then fault uncaught else again

module _ (kernel : Kernel) (epfd : ℕ) where
  -- The loop of `ctl`.
  unfoldable pub ctl_loop : ℕ → Op → ℕ → ℕ → Bool → Watched → Result Watched
  ctl_loop zero op fd event add_retry w = fault endless
  ctl_loop (suc fuel) op fd event add_retry w =
      let again = ctl_loop fuel ctl_mod fd event add_retry w in
      react (kernel op fd event w) add_retry again

  unfoldable pub ctl : ℕ → Op → ℕ → ℕ → Bool → Watched → Result Watched
  ctl fuel op fd event add_retry w =
      if fd == epfd then fault uncaught else ctl_loop fuel op fd event add_retry w

  unfoldable pub try_add : ℕ → ℕ → ℕ → Watched → Result Watched
  try_add fuel fd event w = ctl fuel ctl_add fd event true w

  unfoldable pub add : ℕ → ℕ → ℕ → Watched → Result Watched
  add fuel fd event w = ctl fuel ctl_add fd event false w

  unfoldable pub modify : ℕ → ℕ → ℕ → Watched → Result Watched
  modify fuel fd event w = ctl fuel ctl_mod fd event false w

  unfoldable pub delete : ℕ → ℕ → Watched → Result Watched
  delete fuel fd w = ctl fuel ctl_del fd 0 false w

  abbrev pub Sets : ℕ → ℕ → ℕ ⊎ Watched → Type 0
  Sets fd event r = (v : Watched) × (r ≡ inr v) × (v fd ≡ some event)

  -- What the manual says of EPOLL_CTL_ADD and EPOLL_CTL_MOD, for a descriptor that epoll supports:
  -- one that is not watched is added, and fails to be changed with ENOENT; one that is watched is
  -- changed, and fails to be added with EEXIST.
  abbrev pub IsDocumented : ℕ → Type 0
  IsDocumented fd =
      (event : ℕ) (w : Watched)
      → (w fd ≡ none → Sets fd event (kernel ctl_add fd event w))
        × ((old : ℕ)
            → w fd ≡ some old
            → (kernel ctl_add fd event w ≡ inl eexist) × Sets fd event (kernel ctl_mod fd event w))

  -- A descriptor that epoll supports, and that is not the one of epoll, is watched for the new event
  -- behind `try_add`, whether or not it was watched before, with two calls at most; `add` does so where
  -- it was not watched, and throws where it was.
  pub try_add_lem :
      (fd event : ℕ) (w : Watched)
      → IsDocumented fd
      → fd ≢ epfd
      → ((v : Watched) × (try_add 2 fd event w ≡ ok v) × (v fd ≡ some event))
        × (w fd ≡ none → (v : Watched) × (add 1 fd event w ≡ ok v) × (v fd ≡ some event))
        × ((old : ℕ) → w fd ≡ some old → add 1 fd event w ≡ fault uncaught)
  unfolding try_add add ctl ctl_loop
  try_add_lem fd event w doc other = (
    watched (w fd) refl,
    λ h. let (v, e, set) = (doc event w).0 h in (v, rw (apart, e) (unfold react in refl), set),
    λ old h. let e = ((doc event w).1 old h).0 in rw (apart, e) (unfold react in refl),
  )
    where
      apart : (fd == epfd) ≡ false
      apart = ground (arith, other)

      watched :
          (o : Option ℕ)
          → w fd ≡ o
          → (v : Watched) × (try_add 2 fd event w ≡ ok v) × (v fd ≡ some event)
      watched none h =
          let (v, e, set) = (doc event w).0 h in (v, rw (apart, e) (unfold react in refl), set)
      watched (some old) h =
          let (there, (v, e, set)) = (doc event w).1 old h in
          (v, rw (apart, there, e) (unfold react in refl), set)
