-- ===== src/Extract/Loop/Holds.antt =====
-- What holds of the state that a part of the extraction gives, or of the error and the actions
-- that it ends with.
use gian_proxies.Base.{inl, inr, List, [], ◌∷◌, ◌++◌, Bool-cases}
use gian_proxies.Extract.{InstallError, file_system, Action, Node}
use gian_proxies.Extract.Loop.{
  Extraction, Checked, ok, failed, ◌>>=◌, Turn, next, stop, thrown, turn, perform,
}

module _ (P : Extraction → Type 0) (Q : InstallError → List Action → Type 0) where
  abbrev pub Holds : Checked → Type 0
  Holds (ok s) = P s
  Holds (failed e done) = Q e done

  -- After a turn of the loop.
  abbrev pub HoldsAfter : (Extraction → Type 0) → Turn → Type 0
  HoldsAfter R (next s) = P s
  HoldsAfter R (stop s) = R s
  HoldsAfter R (thrown e done) = Q e done

  pub Holds-turn : (R : Extraction → Type 0) (c : Checked) → Holds c → HoldsAfter R (turn c)
  Holds-turn R (ok s) h = h
  Holds-turn R (failed e done) h = h

pub Holds-bind :
    (P P' : Extraction → Type 0) (Q : InstallError → List Action → Type 0) (c : Checked)
    (k : Extraction → Checked)
    → Holds P Q c
    → ((s : Extraction) → P s → Holds P' Q (k s))
    → Holds P' Q (c >>= k)
Holds-bind P P' Q (ok s) k h f = f s h
Holds-bind P P' Q (failed e done) k h f = h

module _ (node : Node) where
  pub Holds-perform :
      (P : Extraction → Type 0) (Q : InstallError → List Action → Type 0) (a : Action)
      (s : Extraction)
      → P (record s { done = s.done ++ a ∷ [] })
      → Q file_system s.done
      → Holds P Q (perform node a s)
  unfolding perform
  Holds-perform P Q a s p q = elim (Bool-cases (node.succeeds s.done a)) [
    | inl e ↦ rw e p
    | inr e ↦ rw e q
  ]
