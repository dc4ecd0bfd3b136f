-- ===== src/ResumeCloud/Repository/Replays.antt =====
-- `create_or_replay`: one idempotency key names one task for good.
use soloscale_ai_os.Prelude.{Option, filter_by, String}
use soloscale_ai_os.ResumeCloud.Models.{Task, Database}
use soloscale_ai_os.ResumeCloud.Table.{first}
use soloscale_ai_os.ResumeCloud.Repository
use soloscale_ai_os.ResumeCloud.Repository.{rate_limit_exceeded, has_key}

abbrev stored : String → Database → Option Task
stored key db = first (filter_by (has_key key) db.tasks)
