-- ===== src/Auth/Tickets.antt =====
-- internal/auth/ticket.go: single-use tickets for streaming connections.
-- The mutex makes each method one step.
pub mod SingleUse
use iskele.Common.{
  ℕ, ◌+◌, String, Bool, true, false, Option, none, some, List, [], length, ltb, Table, lookup,
  insert, erase, erase_if, ◌==◌, if◌then◌else◌,
}
use iskele.Store.{Role, is_zero}

pub record Ticket : Type 0 where
  pub user_id : String
  pub username : String
  pub role : Role
  pub token_id : String
  pub scopes : List String
  pub expires_at : ℕ

-- 60 seconds
abbrev pub ticket_ttl : ℕ
ticket_ttl = 60_000_000_000

pub record TicketStore : Type 0 where
  pub tickets : Table Ticket
  pub ttl : ℕ

-- NewTicketStore
unfoldable pub new_ticket_store : ℕ → TicketStore
new_ticket_store ttl = record { tickets = []; ttl = if is_zero ttl then ticket_ttl else ttl }

-- now.After(t.ExpiresAt)
abbrev pub is_expired : ℕ → Ticket → Bool
is_expired now t = ltb t.expires_at now

-- pruneLocked
unfoldable pub prune : ℕ → TicketStore → TicketStore
prune now s = record s { tickets = erase_if (is_expired now) s.tickets }

-- Issue, with the value that randomToken gave; `none` is its failure
unfoldable pub issue : Option String → ℕ → Ticket → TicketStore → TicketStore × Option String
unfolding prune
issue none now t s = (s, none)
issue (some value) now t s = (
  prune now (record s { tickets = insert value (record t { expires_at = now + s.ttl }) s.tickets }),
  some value,
)

-- Redeem; `none` is ErrTicketInvalid
unfoldable pub redeem : String → ℕ → TicketStore → TicketStore × Option Ticket
redeem value now s = if value == "" then (s, none) else elim (lookup value s.tickets) [
  | none ↦ (s, none)
  | some t ↦
      (record s { tickets = erase value s.tickets }, if is_expired now t then none else some t)
]
