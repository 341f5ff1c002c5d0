-- ===== src/Store/Stored.antt =====
-- A JSON file of the directory `.system`, seen through the decoder of its reader. A save goes to a
-- temporary file that is renamed over the old one, so it replaces the content at once.
pub data Stored {ℓ} (A : Type ℓ) : Type ℓ where
  absent : Stored A
  -- there, and not decodable
  broken : Stored A
  holds : A → Stored A
