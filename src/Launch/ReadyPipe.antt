-- ===== src/Launch/ReadyPipe.antt =====
-- The message by which a module says that it is ready, and how the master waits for it.
use mould_system_backend.Common.{
  ℕ, ℤ, pos, negsuc, Bool, true, false, ◌&&◌, Bytes, [], ◌∷◌, ◌+◌, ◌-◌, ◌*◌, ◌/◌, ◌%◌, ◌^◌, ◌<◌,
  ◌≤◌, ◌==◌, ltb, if◌then◌else◌, Checked, done, refused, ◌>>=◌, >>=-done, require, require-done,
  ◌≡◌, ◌↔◌, refl, sym, ap, subst, arith,
}

pub record Message : Type 0 where
  pub magic : ℕ
  pub version : ℕ
  pub kind : ℕ

abbrev pub ready_message : Message
ready_message = record { magic = 1297044812; version = 1; kind = 1 }

-- The eight bytes of a message in memory, the lowest first.
unfoldable pub message_bytes : Message → Bytes
message_bytes m =
    m.magic % 256
    ∷ m.magic / 256 % 256
    ∷ m.magic / 65536 % 256
    ∷ m.magic / 16777216 % 256
    ∷ m.version % 256
    ∷ m.version / 256 % 256
    ∷ m.kind % 256
    ∷ m.kind / 256 % 256
    ∷ []

pub data ReadyError : Type 0 where
  invalid_write_fd failed_write invalid_read_fd negative_timeout timed_out poll_failed size_mismatch
        invalid_payload :
      ReadyError

abbrev pub is_natural : ℤ → Bool
is_natural (pos n) = true
is_natural (negsuc n) = false

-- The argument is what `write` returns.
unfoldable pub send_ready : ℤ → ℤ → Checked ReadyError Bytes
unfolding message_bytes
send_ready fd written = require (is_natural fd) invalid_write_fd >>= λ _.
    require (is_eight written) failed_write >>= λ _. done (message_bytes ready_message)
  where
    is_eight : ℤ → Bool
    is_eight (pos n) = n == 8
    is_eight (negsuc n) = false

-- `static_cast<int>` of a 64-bit integer that is not negative.
abbrev pub to_int : ℕ → ℤ
to_int n = if ltb (n % 2 ^ 32) (2 ^ 31) then pos (n % 2 ^ 32) else negsuc (2 ^ 32 - 1 - n % 2 ^ 32)

abbrev pub poll_outcome : ℤ → Checked ReadyError (Unit {0})
poll_outcome (pos n) = if n == 0 then refused timed_out else done tt
poll_outcome (negsuc n) = refused poll_failed

-- A message out of the bytes that `read` gives.
abbrev pub message_of : Bytes → Checked ReadyError Message
message_of (a ∷ b ∷ c ∷ d ∷ e ∷ f ∷ g ∷ h ∷ []) = done (record {
  magic = a + 256 * b + 65536 * c + 16777216 * d;
  version = e + 256 * f;
  kind = g + 256 * h;
})
message_of _ = refused size_mismatch

abbrev pub is_ready : Message → Bool
is_ready m = m.magic == 1297044812 && m.version == 1 && m.kind == 1

-- `poll` by its timeout, and the bytes that `read` gives.
unfoldable pub wait_ready : (ℤ → ℤ) → Bytes → ℤ → ℤ → Checked ReadyError (Unit {0})
wait_ready poll content fd (negsuc n) =
    require (is_natural fd) invalid_read_fd >>= λ _. refused negative_timeout
wait_ready poll content fd (pos n) = require (is_natural fd) invalid_read_fd >>= λ _.
    poll_outcome (poll (to_int n)) >>= λ _.
    message_of content >>= λ m. require (is_ready m) invalid_payload

abbrev pub AreBytes : Bytes → Type 0
AreBytes [] = Unit {0}
AreBytes (b ∷ bs) = (b < 256) × AreBytes bs

-- What `poll` gives is positive.
abbrev pub IsPositive : ℤ → Type 0
IsPositive (pos n) = 1 ≤ n
IsPositive (negsuc n) = ⊥

magic-bytes :
    (a b c d : ℕ)
    → a < 256
    → b < 256
    → c < 256
    → d < 256
    → a + 256 * b + 65536 * c + 16777216 * d ≡ 1297044812
    → (a ≡ 76) × (b ≡ 85) × (c ≡ 79) × (d ≡ 77)
magic-bytes a b c d ha hb hc hd e = (omega arith, omega arith, omega arith, omega arith)

one-bytes : (a b : ℕ) → a < 256 → b < 256 → a + 256 * b ≡ 1 → (a ≡ 1) × (b ≡ 0)
one-bytes a b ha hb e = (omega arith, omega arith)

is_ready-parts :
    (m : Message) → is_ready m ≡ true → (m.magic ≡ 1297044812) × (m.version ≡ 1) × (m.kind ≡ 1)
is_ready-parts m h = (ground arith, ground arith, ground arith)

abbrev message_or : Message → Checked ReadyError Message → Message
message_or m (done n) = n
message_or m (refused e) = m

message-ready :
    (content : Bytes) {m : Message}
    → AreBytes content
    → message_of content ≡ done m
    → is_ready m ≡ true
    → content ≡ message_bytes ready_message
unfolding message_bytes
message-ready [] h e r = cc
message-ready (a ∷ []) h e r = cc
message-ready (a ∷ b ∷ []) h e r = cc
message-ready (a ∷ b ∷ c ∷ []) h e r = cc
message-ready (a ∷ b ∷ c ∷ d ∷ []) h e r = cc
message-ready (a ∷ b ∷ c ∷ d ∷ e1 ∷ []) h e r = cc
message-ready (a ∷ b ∷ c ∷ d ∷ e1 ∷ f ∷ []) h e r = cc
message-ready (a ∷ b ∷ c ∷ d ∷ e1 ∷ f ∷ g ∷ []) h e r = cc
message-ready (a ∷ b ∷ c ∷ d ∷ e1 ∷ f ∷ g ∷ k ∷ []) {m} h e r =
    let (magic, version, kind) =
      is_ready-parts _ (subst (λ n. is_ready n ≡ true) (sym (ap (message_or m) e)) r) in
    let (ea, eb, ec, ed) = magic-bytes a b c d h.0 h.1.0 h.1.1.0 h.1.1.1.0 magic in
    let (ee, ef) = one-bytes e1 f h.1.1.1.1.0 h.1.1.1.1.1.0 version in
    let (eg, ek) = one-bytes g k h.1.1.1.1.1.1.0 h.1.1.1.1.1.1.1.0 kind in
    rw (ea, eb, ec, ed, ee, ef, eg, ek) refl
message-ready (a ∷ b ∷ c ∷ d ∷ e1 ∷ f ∷ g ∷ k ∷ x ∷ xs) h e r = cc

abbrev bytes_or : Bytes → Checked ReadyError Bytes → Bytes
bytes_or b (done c) = c
bytes_or b (refused e) = b

poll_outcome-IsPositive : (i : ℤ) → (poll_outcome i ≡ done tt) ↔ IsPositive i
poll_outcome-IsPositive (pos n) = (λ h. ground arith, λ h. ground arith)
poll_outcome-IsPositive (negsuc n) = (λ h. cc, λ h. absurd h)

-- With a descriptor and a timeout that are not negative, waiting succeeds exactly when `poll` of the
-- timeout, narrowed to 32 bits, reports an event and what is read is the message that `send_ready`
-- writes.
pub wait_ready_iff :
    (poll : ℤ → ℤ) (content : Bytes) (fd n : ℕ)
    → AreBytes content
    → (wait_ready poll content (pos fd) (pos n) ≡ done tt)
      ↔ (IsPositive (poll (to_int n)) × (send_ready (pos fd) (pos 8) ≡ done content))
unfolding wait_ready send_ready
wait_ready_iff poll content fd n h = (
  λ e.
      let (_, p, e1) = >>=-done (poll_outcome (poll (to_int n))) _ e in
      let (m, f, e2) = >>=-done (message_of content) _ e1 in
      (
        (poll_outcome-IsPositive (poll (to_int n))).0 p,
        ap (λ c. done c)
            (sym (message-ready content h f (require-done (is_ready m) invalid_payload e2))),
      ),
  λ (p, s).
      rw ((poll_outcome-IsPositive (poll (to_int n))).1 p, sym (ap (bytes_or content) s)) refl,
)

-- A timeout below 2 ^ 31 reaches `poll` as it is.
pub to_int-small : (n : ℕ) → n < 2 ^ 31 → to_int n ≡ pos n
to_int-small n h = rw (small_mod n h) (ground arith)
  where
    small_mod : (n : ℕ) → n < 2 ^ 31 → n % 2 ^ 32 ≡ n
    small_mod n h = omega arith
