-- ===== src/Tests.antt =====
-- Tests and instances of the theorems at concrete inputs.
mod Numbers
mod Rollup
mod Cache
mod Fanout
mod Retention
mod Agg
mod Ratelimit
mod Registry
mod Series
mod Ports
mod Ingress
mod Service
mod Sink
mod PubSub
mod Broker
mod Database
mod Protocol
mod Downsample
mod Aggregate
