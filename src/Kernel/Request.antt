-- ===== src/Kernel/Request.antt =====
-- The dispatch of system requests of continuum/continuum_core.c: `continuum_handle_request` and
-- `handle_native_request`. What they call is the record `Handlers`: other parts of the kernel, and
-- functions that the repository declares and does not define. `S` is the state of the whole kernel.
use limitless_os.Prelude.{
  ℕ, ◌≡◌, ◌≢◌, Bool, true, false, not, Option, none, some, ◌==◌, if◌then◌else◌, arith,
}

-- `abi_mode_t`, and any other number.
pub data AbiMode : Type 0 where
  native axon vortex cipher unknown : AbiMode

-- `system_request_t`, less the flags, which are not read.
pub record SystemRequest : Type 0 where
  pub request_id : ℕ
  pub params : ℕ → ℕ

abbrev pub memory_allocate : ℕ
memory_allocate = 1

abbrev pub memory_free : ℕ
memory_free = 2

abbrev pub conduit_create_id : ℕ
conduit_create_id = 5

abbrev pub conduit_send_id : ℕ
conduit_send_id = 6

abbrev pub quantum_spawn : ℕ
quantum_spawn = 8

abbrev pub quantum_yield : ℕ
quantum_yield = 10

-- The error codes, and what a call answered otherwise.
pub data Answer : Type 0 where
  einval eperm enosys : Answer
  value : ℕ → Answer

-- The calls, each on a quantum or on the parameters of a request.
pub record Handlers (S : Type 0) : Type 0 where
  pub capability_check : S → ℕ → ℕ → Bool
  pub abi_mode : S → ℕ → AbiMode
  pub count_call : S → ℕ → S
  pub allocate : S → ℕ → ℕ → ℕ → Answer × S
  pub free : S → ℕ → S
  pub create_conduit : S → ℕ → ℕ → Answer × S
  pub send : S → ℕ → ℕ → ℕ → ℕ → Answer × S
  pub spawn : S → ℕ → ℕ → ℕ → Answer × S
  pub yield : S → ℕ → S
  pub axon : S → ℕ → SystemRequest → Answer × S
  pub vortex : S → ℕ → SystemRequest → Answer × S
  pub cipher : S → ℕ → SystemRequest → Answer × S

module _ {S : Type 0} (h : Handlers S) where
  unfoldable pub handle_native_request : S → ℕ → SystemRequest → Answer × S
  handle_native_request s quantum request =
      let id = request.request_id in
      let param = request.params in
      if id == memory_allocate
      then h.allocate s quantum (param 0) (param 1)
      else if id == memory_free
      then (value 0, h.free s (param 0))
      else if id == conduit_create_id
      then h.create_conduit s (param 0) (param 1)
      else if id == conduit_send_id
      then h.send s (param 0) (param 1) (param 2) (param 3)
      else if id == quantum_spawn
      then h.spawn s (param 0) (param 1) (param 2)
      else if id == quantum_yield
      then (value 0, h.yield s quantum)
      else (enosys, s)

  abbrev pub route : S → ℕ → SystemRequest → AbiMode → Answer × S
  route s quantum request AbiMode.native = handle_native_request s quantum request
  route s quantum request AbiMode.axon = h.axon s quantum request
  route s quantum request AbiMode.vortex = h.vortex s quantum request
  route s quantum request AbiMode.cipher = h.cipher s quantum request
  route s quantum request AbiMode.unknown = (enosys, s)

  unfoldable pub continuum_handle_request : S → Option ℕ → Option SystemRequest → Answer × S
  unfolding handle_native_request
  continuum_handle_request s none request = (einval, s)
  continuum_handle_request s (some quantum) none = (einval, s)
  continuum_handle_request s (some quantum) (some request) =
      if not (h.capability_check s quantum request.request_id)
      then (eperm, s)
      else (let s' = h.count_call s quantum in route s' quantum request (h.abi_mode s' quantum))

-- The requests that the enumeration names and `handle_native_request` does not handle.
abbrev pub Unhandled : ℕ → Type 0
Unhandled id =
    (id ≢ memory_allocate)
    × (id ≢ memory_free)
    × (id ≢ conduit_create_id)
    × (id ≢ conduit_send_id)
    × (id ≢ quantum_spawn)
    × (id ≢ quantum_yield)

module _ {S : Type 0} (h : Handlers S) (s : S) (quantum : ℕ) (request : SystemRequest) where
  -- A request without the capability changes nothing. With it the call is counted, and a native
  -- request that is none of the six handled ones is refused and changes nothing else.
  pub continuum_handle_request_lem :
      let (answer, s') = continuum_handle_request h s (some quantum) (some request) in
      (h.capability_check s quantum request.request_id ≡ false → (answer ≡ eperm) × (s' ≡ s))
      × (h.capability_check s quantum request.request_id ≡ true
          → h.abi_mode (h.count_call s quantum) quantum ≡ AbiMode.native
          → Unhandled request.request_id
          → (answer ≡ enosys) × (s' ≡ h.count_call s quantum))
  unfolding continuum_handle_request handle_native_request
  continuum_handle_request_lem = (λ e. ground arith, λ e mode (a, b, c, d, f, g). ground arith)
