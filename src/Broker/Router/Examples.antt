-- ===== src/Broker/Router/Examples.antt =====
-- The router, run: the witnesses and the samples that the connections' tests share.
use lumen_mq.Prelude.{subst, some, [], arith}
use lumen_mq.Prelude.Assoc.{lookup}
use lumen_mq.Broker.Retain.{get}
use lumen_mq.Broker.Session.Deliver.{Channel}
use lumen_mq.Broker.Session.Examples.{
  request, empty_manager, online_manager, registered, online_manager-WellFormed,
}
use lumen_mq.Broker.Subscription.Examples.{tree, tree-WellFormed}
use lumen_mq.Broker.Router.{Disk, Router, Around}
use lumen_mq.Broker.Router.Fanout.{Roomy}
use lumen_mq.Broker.Router.Leaving.{register-Roomy}
use lumen_mq.Broker.Router.Kept.{Sound}

-- A storage that keeps nothing.
abbrev pub no_disk : Disk (Unit {0})
no_disk = record {
  retained = record { save_retained = λ t m d. some tt; delete_retained = λ t d. some tt };
  push_offline = λ id msg d. tt;
  drain_offline = λ id d. (some [], tt);
  save_session = λ id subs d. tt;
  delete_session = λ id d. tt;
}

abbrev pub idle : Around
idle = record { now = 10; channels = λ tx. Channel.ready }

-- One client, online and subscribed to "a/+".
abbrev pub one_client : Router (Unit {0})
one_client = record {
  subscriptions = tree;
  sessions = online_manager;
  retain = record { messages = []; storage = some tt; max_payload_bytes = 0 };
}

pub online_manager-Roomy : Roomy online_manager
unfolding lookup
online_manager-Roomy =
    subst Roomy registered (register-Roomy 7 request empty_manager (omega arith, λ id e q h k. cc))

pub one_client-Sound : Sound one_client
unfolding get lookup
one_client-Sound = record {
  tree = tree-WellFormed;
  table = online_manager-WellFormed;
  roomy = online_manager-Roomy;
  retained = record { one_each = tt; own_topic = λ t m h. cc };
}
