-- ===== src/Comet/Session/Check/Undisturbed.antt =====
-- The timeout and the answer of Comet.Session, which are single steps, are the runs of the goroutine of
-- checkTrans that nothing comes between.
use galopush.Comet.Session.{Transaction, Session, del_trans}

module _ (t : Transaction) (p : Session) where
  -- The session without the transaction.
  abbrev pub left : Session
  left = record p { trans = del_trans t.tid p.trans }
