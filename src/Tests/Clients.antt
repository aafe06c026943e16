-- ===== src/Tests/Clients.antt =====
-- Calls of a client.
use gocoon.Common.{List, [], ◌∷◌}
use gocoon.Common.Assoc.{bytes_eq}
use gocoon.Tl.Ids.{codes}
use gocoon.Cocoon.Client.{Client, new_client, dial_fails, ready, connect_proxy}
use gocoon.Cocoon.Client.Tidy.{IsTidy}
use gocoon.Cocoon.Client.Calls.{Call, connect, lost, shut_down, apply, run, run-IsTidy}
use gocoon.Cocoon.Client.Answers.{Answers, connect_proxy-Answers}

-- A session that is lost and opened again, one that fails, and the end.
abbrev calls : List Call
calls =
    connect (codes "a:1") ready
    ∷ lost 0
    ∷ connect (codes "a:1") ready
    ∷ connect (codes "b:2") (dial_fails 5)
    ∷ shut_down
    ∷ []

run-IsTidy_example : IsTidy (run calls new_client)
run-IsTidy_example = run-IsTidy calls

abbrev one_session : Client
one_session = apply (connect (codes "a:1") ready) new_client

-- The session that is there is given to a second caller.
connect_proxy-Answers_example :
    Answers
      (codes "a:1")
      (dial_fails 5)
      one_session
      (connect_proxy (codes "a:1") (dial_fails 5) one_session)
connect_proxy-Answers_example = connect_proxy-Answers (codes "a:1") (dial_fails 5) one_session
