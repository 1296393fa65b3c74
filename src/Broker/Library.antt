-- ===== src/Broker/Library.antt =====
-- What src/lumi_eggcracker/brokered/operator.py calls and does not define: json, hashlib, hmac and base64. Bytes are
-- lists of numbers. `hmac` and `hmac_digest` are taken under the store's secret key.
use lumi_eggcracker.Base.{ℕ, String, Option, List}
use lumi_eggcracker.Json.{Value}

pub record Library : Type 0 where
  -- `json.loads` with the hooks that refuse duplicate keys, floats and constants; `none` raises
  pub loads : List ℕ → Option Value
  -- `_canonical_json`: sorted keys, no spaces, a final newline
  pub dumps : Value → List ℕ
  -- `hashlib.sha256(raw).hexdigest()`
  pub sha256 : List ℕ → String
  -- `hmac.new(key, raw, hashlib.sha256)`, in hexadecimal and raw
  pub hmac : List ℕ → String
  pub hmac_digest : List ℕ → List ℕ
  -- `base64.b64encode(raw).decode("ascii")` and `base64.b64decode(text, validate=True)`
  pub b64encode : List ℕ → String
  pub b64decode : String → Option (List ℕ)
  -- `base64.urlsafe_b64encode` and `base64.urlsafe_b64decode`, on the code points of the text
  pub urlsafe_b64encode : List ℕ → List ℕ
  pub urlsafe_b64decode : List ℕ → Option (List ℕ)
