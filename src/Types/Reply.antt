-- ===== src/Types/Reply.antt =====
-- A oneshot sender, told apart by a number, and the error replies that a call sends, in order.
use oceanraft.Common.{ℕ, List, [], ◌∷◌, Option, none, some}
use oceanraft.Types.Errors.{Error}

abbrev pub Sender : Type 0
Sender = ℕ

abbrev pub Replies : Type 0
Replies = List (Sender × Error)

-- `tx.map(|tx| tx.send(Err(e)))`
abbrev pub reply : Option Sender → Error → Replies
reply none e = []
reply (some tx) e = (tx, e) ∷ []
