-- ===== src/Consumer/Runner.antt =====
-- `RabbitEventConsumerRunner.start` and `stop` of event_saver/adapters/consumer.py.
use event_saver.Prelude.{String, Bool, true, false, List, [], ◌∷◌, ◌++◌, if◌then◌else◌}

-- `QueueSpec` of `event_schemas.queues`; the arguments are opaque.
pub record QueueSpec : Type 0 where
  pub name : String
  pub binding : String
  pub arguments : String
  pub dlq_name : String
  pub dlq_arguments : String

-- Calls of the broker, in the order in which they are made.
pub data BrokerCall : Type 0 where
  subscribe : String → String → String → BrokerCall
  start_broker : BrokerCall
  declare_exchange : String → BrokerCall
  declare_queue : String → String → String → BrokerCall
  bind_queue : String → String → String → BrokerCall
  stop_broker : BrokerCall

pub record Runner : Type 0 where
  pub started : Bool
  pub calls : List BrokerCall

-- a subscriber for each queue, its routing key the binding
unfoldable pub subscribe_all : List QueueSpec → List BrokerCall
subscribe_all [] = []
subscribe_all (spec ∷ specs) = subscribe spec.name spec.binding spec.arguments ∷ subscribe_all specs

module _ (events_dlx : String) (queue_specs : List QueueSpec) where
  unfoldable pub declare_queues : List QueueSpec → List BrokerCall
  declare_queues [] = []
  declare_queues (spec ∷ specs) =
      declare_queue spec.dlq_name spec.dlq_name spec.dlq_arguments
      ∷ bind_queue spec.dlq_name events_dlx spec.dlq_name
      ∷ declare_queues specs

  -- `_ensure_dead_letter_topology`
  unfoldable pub ensure_dead_letter_topology : List BrokerCall
  unfolding declare_queues
  ensure_dead_letter_topology = declare_exchange events_dlx ∷ declare_queues queue_specs

  unfoldable pub start : Runner → Runner
  unfolding subscribe_all ensure_dead_letter_topology
  start r = if r.started then r else record {
    started = true;
    calls = r.calls ++ (subscribe_all queue_specs ++ (start_broker ∷ ensure_dead_letter_topology));
  }

  unfoldable pub stop : Runner → Runner
  stop r = if r.started then record { started = false; calls = r.calls ++ stop_broker ∷ [] } else r
