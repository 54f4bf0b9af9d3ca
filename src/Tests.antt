-- ===== src/Tests.antt =====
-- Runs of the model on concrete inputs. `Fixtures` has the data that the other modules share.
mod Fixtures
mod Stores
mod Peers
mod Anonymous
mod Handlers
mod Wallets
mod Services
mod SignIns
mod Nodes
mod Handled
