-- ===== src/Client/Action.antt =====
-- The firewall as a client sees it, and actions against it. Each action runs in one request slot:
-- sophos_client.py sends one request at a time, and holds the slot from a read to the write that
-- depends on it.
use ha_sophos_fw.Prelude.{List}
use ha_sophos_fw.Client.Errors.{Result, ok, err}
use ha_sophos_fw.Client.Request.{Request}

-- `server` is the firewall's state, of any type; `sent` are the requests so far, in order.
pub record World (S : Type 0) : Type 0 where
  pub server : S
  pub sent : List Request

abbrev pub Action : Type 0 → Type 0 → Type 0
Action S A = World S → Result A × World S

module _ {S A : Type 0} where
  abbrev pub pure : A → Action S A
  pure a w = (ok a, w)

  abbrev pub lift : Result A → Action S A
  lift r w = (r, w)

  -- `try: ... except SophosError`
  abbrev pub attempt : Action S A → Action S (Result A)
  attempt m w = let (r, w') = m w in (ok r, w')

module _ {S A B : Type 0} where
  abbrev pub continue : Result A → (A → Action S B) → Action S B
  continue (ok a) f w = f a w
  continue (err e) f w = (err e, w)

  infixl 5 ◌>>=◌ ◌>>◌
  abbrev pub ◌>>=◌ : Action S A → (A → Action S B) → Action S B
  ◌>>=◌ m f w = let (r, w') = m w in continue r f w'

  abbrev pub ◌>>◌ : Action S A → Action S B → Action S B
  m >> n = m >>= λ _. n
