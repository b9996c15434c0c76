-- ===== src/Session/Services/Tests.antt =====
-- A device file that opens one service twice.
use itrustee_tzdriver.Base.{false, some, []}
use itrustee_tzdriver.Session.Services.{TcNsDevFile, Services, find_service}
use itrustee_tzdriver.Session.Services.Refs.{Counts, here, next, opens, new_dev, Reach-Counts}

abbrev no_services : Services
no_services = record {
  memory = λ k. record { uuid = 0; usage = 0; live = false };
  service_list = [];
}

abbrev opened_once : TcNsDevFile
opened_once = (find_service (some 9) false 77 new_dev no_services).1

abbrev one_service : Services
one_service = (find_service (some 9) false 77 new_dev no_services).2

abbrev opened_twice : TcNsDevFile
opened_twice = (find_service (some 9) false 77 opened_once one_service).1

Reach-Counts_example : Counts opened_twice
Reach-Counts_example =
    Reach-Counts opened_twice
      (next (next here (opens (some 9) false 77 no_services)) (opens (some 9) false 77 one_service))
