-- ===== src/HelloWorld.antt =====
-- dev/module/helloworld.cpp and main.cpp: an experiment with the modules of C++20.
use marko_cpp.Prelude.{codes}
use marko_cpp.Os.{Os}

module _ (os : Os) where
  unfoldable pub hello : os.World → os.World
  hello = os.print_line (codes "Hello world!")

  unfoldable pub main : os.World → os.World
  unfolding hello
  main = hello
