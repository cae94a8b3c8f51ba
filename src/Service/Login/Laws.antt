-- ===== src/Service/Login/Laws.antt =====
-- What a login leaves in the service.
use desperate.Prelude.{list_eq}
use desperate.Service.{Service}
