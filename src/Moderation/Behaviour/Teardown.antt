-- ===== src/Moderation/Behaviour/Teardown.antt =====
-- What the teardown leaves, however the writes to the database end
-- (backend/app/modules/moderation/runner.py).
use mathlib.Core.Option
