-- ===== src/Node/Handler/Sends.antt =====
-- Each of the sends changes only its own list.
use bit_cord.Prelude.{◌≡◌, refl, Bytes, List, [], ◌∷◌, Option, none, some, elim_cases}
use bit_cord.State.MessageLog.{LogEntry}
use bit_cord.Node.Table.{Tables}
use bit_cord.Node.Session.{NodeServices, NodeEnv, Moment}
use bit_cord.Node.Requests.Join.{notify_joined}
use bit_cord.Node.Requests.Messages.{push_dm, register_mailbox}

module _ {T : Type 0} (R : Tables T) (ne : NodeEnv) (now : Moment) (sv : NodeServices T) where
  pub notify_joined_only :
      (pk : Bytes) (i : Option Bytes)
      → notify_joined R ne now sv pk i
        ≡ record sv { joined = (notify_joined R ne now sv pk i).joined }
  notify_joined_only pk none = refl
  notify_joined_only pk (some i) = refl

  pub push_dm_only :
      (r : Bytes) (o : Option (List LogEntry))
      → push_dm R ne now sv r o ≡ record sv { pushes = (push_dm R ne now sv r o).pushes }
  push_dm_only r none = refl
  push_dm_only r (some []) = refl
  push_dm_only r (some (e ∷ es)) = refl

  pub register_mailbox_only :
      (r : Bytes)
      → register_mailbox R ne now sv r
        ≡ record sv { mailboxes = (register_mailbox R ne now sv r).mailboxes }
  register_mailbox_only r =
      elim_cases (λ (s : NodeServices T). s ≡ record sv { mailboxes = s.mailboxes }) sv.dht _ _
        (λ n. refl) (λ s n. refl)
